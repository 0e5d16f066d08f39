-- ===== src/Exchanges/Deribit/Recovery/Sequence.antt =====
-- The sequence numbers of what recoverSymbol of quanttick/exchanges/deribit_recovery.go returns.
use go_quant_tick.Common.{
  ℕ, zero, suc, ◌≡◌, Option, List, [], ◌∷◌, ◌++◌, Text, Word, nat_eq, nat_eq_iff, text_eq,
  text_eq_iff, Result, ok, err, int_add, format_int, stable_sort, Bool-cases, Option-cases, inl,
  inr, refl, arith, ◌⊎◌, sym, Bool,
}
use go_quant_tick.Trade.{Time, DecimalOps, new_trade_event}
use go_quant_tick.Exchanges.Protocol.{Json}
use go_quant_tick.Exchanges.Runtime.{Attempt}
use go_quant_tick.Exchanges.Deribit.{DeribitError, DeribitTrade, DeribitParsedTrade}
use go_quant_tick.Exchanges.Deribit.Protocol.{parse_deribit_trade}
use go_quant_tick.Exchanges.Deribit.Recovery.{
  DeribitPage, DeribitRecoveryEnvelope, in_front, recover_rows, raw_less, after_deribit_page,
  deribit_envelope, deribit_answer, fetch_deribit_page, recover_deribit_pages,
  recover_deribit_symbol, deribit_recovery_max_pages,
}

module _ {D : Type 0} where
  -- A trade of `symbol` with the sequence number `sequence`, which is its UID.
  pub record IsNumbered (symbol : Text) (sequence : Word) (trade : DeribitParsedTrade D)
      : Type 0 where
    pub numbered : trade.sequence ≡ sequence
    pub of_symbol : trade.event.symbol ≡ symbol
    pub of_uid : trade.event.uid ≡ format_int sequence

  -- The trades of `symbol` have the sequence numbers from `from` on, one by one.
  abbrev pub InSequence : Text → Word → List (DeribitParsedTrade D) → Type 0
  InSequence symbol from [] = Unit
  InSequence symbol from (trade ∷ trades) =
      IsNumbered symbol from trade × InSequence symbol (int_add from 1) trades

  abbrev behind : Word → List (DeribitParsedTrade D) → Word
  behind from [] = from
  behind from (trade ∷ trades) = behind (int_add from 1) trades

  InSequence-append :
      (symbol : Text) (from : Word) (xs ys : List (DeribitParsedTrade D))
      → InSequence symbol from xs
      → InSequence symbol (behind from xs) ys
      → InSequence symbol from (xs ++ ys)
  InSequence-append symbol from [] ys h k = k
  InSequence-append symbol from (x ∷ xs) ys h k =
      (h.0, InSequence-append symbol (int_add from 1) xs ys h.1 k)

  -- A page from `from` on: where it ends well, the number behind its rows is expected.
  record IsPage (symbol : Text) (from : Word) (page : DeribitPage D) : Type 0 where
    in_sequence : InSequence symbol from page.rows
    expects :
        ((e : DeribitError) × (page.expected ≡ err e))
        ⊎ (page.expected ≡ ok (behind from page.rows))

  failed-IsPage :
      (symbol : Text) (from : Word) (e : DeribitError)
      → IsPage symbol from (record { rows = []; expected = err e })
  failed-IsPage symbol from e = record { in_sequence = tt; expects = inl (e, refl) }

  in_front-IsPage :
      (symbol : Text) (from : Word) (rest : DeribitPage D)
      (parsed : Result DeribitError (DeribitParsedTrade D))
      → ((trade : DeribitParsedTrade D) → parsed ≡ ok trade → IsNumbered symbol from trade)
      → IsPage symbol (int_add from 1) rest
      → IsPage symbol from (in_front rest parsed)
  unfolding in_front
  in_front-IsPage symbol from rest (err e) h k = failed-IsPage symbol from e
  in_front-IsPage symbol from rest (ok trade) h k = record {
    in_sequence = (h trade refl, k.in_sequence);
    expects = k.expects;
  }

module _ (D : Type 0) ⦃ops : DecimalOps D⦄ ⦃json : Json⦄ (symbol : Text) where
  pub parse_deribit_trade-IsNumbered :
      (raw : DeribitTrade) (received_at : Time) (parsed : DeribitParsedTrade D)
      → parse_deribit_trade raw received_at ≡ ok parsed
      → raw.instrument_name ≡ symbol
      → IsNumbered symbol raw.trade_sequence parsed
  unfolding parse_deribit_trade new_trade_event
  parse_deribit_trade-IsNumbered raw received_at parsed h of_instrument = record {
    numbered = ground arith;
    of_symbol = ground arith;
    of_uid = ground arith;
  }

  recover_rows-IsPage :
      (from : Word) (trades : List DeribitTrade) (received_at : Time)
      → IsPage symbol from (recover_rows {D = D} symbol from trades received_at)
  unfolding recover_rows
  recover_rows-IsPage from [] received_at = record { in_sequence = tt; expects = inr refl }
  recover_rows-IsPage from (raw ∷ trades) received_at =
      elim (Bool-cases (text_eq raw.instrument_name symbol)) [
        | inr other ↦ rw other (failed-IsPage symbol from _)
        | inl same ↦ elim (Bool-cases (nat_eq raw.trade_sequence from)) [
          | inr off ↦ rw (same, off) (failed-IsPage symbol from _)
          | inl on ↦
              rw (same, on)
                (in_front-IsPage symbol from
                  (recover_rows symbol (int_add from 1) trades received_at)
                  (parse_deribit_trade raw received_at)
                  (λ parsed e. rw (sym ((nat_eq_iff raw.trade_sequence from).0 on)) (
                    parse_deribit_trade-IsNumbered raw received_at parsed e
                      ((text_eq_iff raw.instrument_name symbol).0 same)))
                  (recover_rows-IsPage (int_add from 1) trades received_at))
        ]
      ]

  module _ (next : Word → List (DeribitParsedTrade D) × Option DeribitError)
      (later : (from : Word) → InSequence symbol from (next from).0) where
    after_deribit_page-InSequence :
        (from : Word) (has_more : Bool) (page : DeribitPage D)
        → IsPage symbol from page
        → InSequence symbol from (after_deribit_page symbol next has_more page).0
    unfolding after_deribit_page
    after_deribit_page-InSequence from has_more page h = elim h.expects [
      | inl (e, failed) ↦ rw failed h.in_sequence
      | inr goes_on ↦ elim (Bool-cases has_more) [
        | inr last ↦ rw (goes_on, last) h.in_sequence
        | inl more ↦
            rw (goes_on, more)
              (InSequence-append symbol from page.rows (next (behind from page.rows)).0
                h.in_sequence (later (behind from page.rows)))
      ]
    ]

    deribit_envelope-InSequence :
        (from : Word) (envelope : DeribitRecoveryEnvelope) (received_at : Time)
        (trades : List DeribitTrade)
        → InSequence symbol from (deribit_envelope symbol next from envelope received_at trades).0
    unfolding deribit_envelope
    deribit_envelope-InSequence from envelope received_at [] = tt
    deribit_envelope-InSequence from envelope received_at (raw ∷ trades) =
        after_deribit_page-InSequence from envelope.has_more _
          (recover_rows-IsPage from (stable_sort raw_less (raw ∷ trades)) received_at)

    deribit_answer-InSequence :
        (from : Word) (answer : Result DeribitError (DeribitRecoveryEnvelope × Time))
        → InSequence symbol from (deribit_answer symbol next from answer).0
    unfolding deribit_answer
    deribit_answer-InSequence from (err e) = tt
    deribit_answer-InSequence from (ok (envelope, received_at)) =
        elim (Option-cases envelope.error) [
          | inr (error, e) ↦ rw e tt
          | inl n ↦ rw n (deribit_envelope-InSequence from envelope received_at envelope.trades)
        ]

  recover_deribit_pages-InSequence :
      (pages : ℕ) (attempts : List (Attempt DeribitRecoveryEnvelope)) (from : Word)
      → InSequence symbol from (recover_deribit_pages {D = D} symbol pages attempts from).0
  unfolding recover_deribit_pages
  recover_deribit_pages-InSequence zero attempts from = tt
  recover_deribit_pages-InSequence (suc pages) attempts from =
      let answer = fetch_deribit_page attempts in
      deribit_answer-InSequence (recover_deribit_pages symbol pages answer.1)
        (recover_deribit_pages-InSequence pages answer.1) from answer.0

-- The trades that are recovered for an instrument are of that instrument and have the sequence
-- numbers from the one that was asked for on, one by one without a gap, whatever the venue answers and
-- however the requests end. Their UIDs are the prints of their sequence numbers.
pub recover_deribit_symbol-InSequence :
    (D : Type 0) ⦃ops : DecimalOps D⦄ ⦃json : Json⦄ (symbol : Text)
    (attempts : List (Attempt DeribitRecoveryEnvelope)) (from : Word)
    → InSequence symbol from (recover_deribit_symbol {D = D} symbol attempts from).0
unfolding recover_deribit_symbol
recover_deribit_symbol-InSequence D symbol =
    recover_deribit_pages-InSequence D symbol deribit_recovery_max_pages
