-- ===== src/Exchanges/Deribit/Numbered.antt =====
-- The UIDs of the trades that a session of Deribit gets, in quanttick/exchanges/deribit.go.
use go_quant_tick.Common.{
  ℕ, suc, ◌+◌, ◌≡◌, Bool, true, false, not, ◌||◌, Option, List, [], ◌∷◌, ◌++◌, Text, Word, text_Eq,
  Dict, lookup, ltb, length, trim_space, trim_prefix, trim_suffix, has_prefix, has_suffix, text_eq,
  bytes, Result, ok, err, OkHas, OkHas-bind, OkHas-then, OkHas-of, All, All-append, All-insert_all,
  stable_sort, int_add, format_int, Bool-cases, Option-cases, Result-cases, inl, inr, refl, sym, ap,
  ◌∙◌, if◌then◌else◌,
}
use go_quant_tick.Trade.{Time, DecimalOps}
use go_quant_tick.Exchanges.Protocol.{Json}
use go_quant_tick.Exchanges.Runtime.{
  Read, frame, failure, Frame, Offer, taken, cancelled, full, Attempt,
}
use go_quant_tick.Exchanges.Deribit.{
  Deribit, DeribitError, DeribitFormats, DeribitEnvelope, DeribitTrade, DeribitParsedTrade, wanted,
  deribit_subscription_buffer_limit,
}
use go_quant_tick.Exchanges.Deribit.Protocol.{
  parse_deribit_trade, parse_deribit_trades, sequence_less, channel_trades, envelope_trades,
  parse_deribit_message, parse_deribit_response, has_symbol,
}
use go_quant_tick.Exchanges.Deribit.Sequential.{HasNumber}
use go_quant_tick.Exchanges.Deribit.Recovery.{
  DeribitRecoveryEnvelope, recover_deribit_symbols, deribit_recovered_less, recover_deribit_trades,
}
use go_quant_tick.Exchanges.Deribit.Recovery.Sequence.{
  InSequence, parse_deribit_trade-IsNumbered, recover_deribit_symbol-InSequence,
}
use go_quant_tick.Exchanges.Deribit.Session.{
  Message, acknowledgement, trades, offer_trade, offer_trades, await_deribit_message,
  read_deribit_message, trades_message, deribit_message, await_deribit_subscription,
  start_deribit_reader,
}

module _ {D : Type 0} where
  -- what holds of a message
  abbrev IsOfNumbered : Message D → Type 0
  IsOfNumbered acknowledgement = Unit
  IsOfNumbered (trades parsed) = All HasNumber parsed

  InSequence-HasNumber :
      (symbol : Text) (from : Word) (rows : List (DeribitParsedTrade D))
      → InSequence symbol from rows
      → All HasNumber rows
  InSequence-HasNumber symbol from [] h = tt
  InSequence-HasNumber symbol from (row ∷ rows) h = (
    h.0.of_uid ∙ ap format_int (sym h.0.numbered),
    InSequence-HasNumber symbol (int_add from 1) rows h.1,
  )

  offer_trade-HasNumber :
      (parsed : DeribitParsedTrade D) (rest : List (DeribitParsedTrade D) × Option DeribitError)
      (offer : Offer)
      → HasNumber parsed
      → All HasNumber rest.0
      → All HasNumber (offer_trade parsed rest offer).0
  unfolding offer_trade
  offer_trade-HasNumber parsed rest taken h k = (h, k)
  offer_trade-HasNumber parsed rest cancelled h k = tt
  offer_trade-HasNumber parsed rest full h k = tt

  offer_trades-HasNumber :
      (next : ℕ → List (DeribitParsedTrade D) × Option DeribitError) (offers : ℕ → Offer)
      → ((n : ℕ) → All HasNumber (next n).0)
      → (n : ℕ) (parsed : List (DeribitParsedTrade D)) → All HasNumber parsed
      → All HasNumber (offer_trades next offers n parsed).0
  unfolding offer_trades
  offer_trades-HasNumber next offers h n [] k = h n
  offer_trades-HasNumber next offers h n (parsed ∷ rest) k =
      offer_trade-HasNumber parsed _ (offers n) k.0
        (offer_trades-HasNumber next offers h (suc n) rest k.1)

  await_deribit_message-HasNumber :
      (next : List (DeribitParsedTrade D)
        → Result DeribitError (List (DeribitParsedTrade D) × List Read))
      → ((buffered : List (DeribitParsedTrade D))
          → All HasNumber buffered
          → OkHas (λ found. All HasNumber found.0) (next buffered))
      → (reads : List Read) (buffered : List (DeribitParsedTrade D))
        (message : Result DeribitError (Message D))
      → OkHas IsOfNumbered message
      → All HasNumber buffered
      → OkHas (λ found. All HasNumber found.0) (await_deribit_message next reads buffered message)
  unfolding await_deribit_message
  await_deribit_message-HasNumber next later reads buffered (err e) m h = tt
  await_deribit_message-HasNumber next later reads buffered (ok acknowledgement) m h = h
  await_deribit_message-HasNumber next later reads buffered (ok (trades parsed)) m h =
      elim (Bool-cases (ltb deribit_subscription_buffer_limit (length buffered + length parsed))) [
        | inl exceeded ↦ rw exceeded tt
        | inr room ↦ rw room (later (buffered ++ parsed) (All-append HasNumber buffered parsed h m))
      ]

  trades_message-HasNumber :
      (parsed : Result DeribitError (List (DeribitParsedTrade D)))
      → OkHas (All HasNumber) parsed
      → OkHas IsOfNumbered (trades_message parsed)
  unfolding trades_message
  trades_message-HasNumber (err e) h = tt
  trades_message-HasNumber (ok parsed) h = h

  read_deribit_message-HasNumber :
      (next : ℕ → List (DeribitParsedTrade D) × Option DeribitError)
      → ((n : ℕ) → All HasNumber (next n).0)
      → (offers : ℕ → Offer) (n : ℕ) (message : Result DeribitError (Message D))
      → OkHas IsOfNumbered message
      → All HasNumber (read_deribit_message next offers n message).0
  unfolding read_deribit_message
  read_deribit_message-HasNumber next later offers n (err e) m = tt
  read_deribit_message-HasNumber next later offers n (ok acknowledgement) m = later n
  read_deribit_message-HasNumber next later offers n (ok (trades parsed)) m =
      offer_trades-HasNumber next offers later n parsed m

module _ (D : Type 0) ⦃ops : DecimalOps D⦄ ⦃json : Json⦄ where
  abbrev Numbered : List (DeribitParsedTrade D) → Type 0
  Numbered = All HasNumber

  parse_deribit_trade-HasNumber :
      (raw : DeribitTrade) (received_at : Time) (parsed : DeribitParsedTrade D)
      → parse_deribit_trade raw received_at ≡ ok parsed
      → HasNumber parsed
  parse_deribit_trade-HasNumber raw received_at parsed h =
      let numbered =
        parse_deribit_trade-IsNumbered D raw.instrument_name raw received_at parsed h refl in
      numbered.of_uid ∙ ap format_int (sym numbered.numbered)

  parse_deribit_trades-HasNumber :
      (symbol : Text) (raw : List DeribitTrade) (received_at : Time)
      → OkHas (All HasNumber) (parse_deribit_trades {D = D} symbol raw received_at)
  unfolding parse_deribit_trades
  parse_deribit_trades-HasNumber symbol [] received_at = tt
  parse_deribit_trades-HasNumber symbol (raw ∷ rest) received_at =
      elim (Bool-cases (text_eq raw.instrument_name symbol)) [
        | inr other ↦ rw other tt
        | inl same ↦ rw same (
            OkHas-bind HasNumber (All HasNumber) (parse_deribit_trade raw received_at) _
              (OkHas-of HasNumber _ (parse_deribit_trade-HasNumber raw received_at))
              (λ parsed p.
                OkHas-bind (All HasNumber) (All HasNumber)
                  (parse_deribit_trades symbol rest received_at) _
                  (parse_deribit_trades-HasNumber symbol rest received_at) (λ more q. (p, q))))
      ]

  recover_deribit_symbols-HasNumber :
      (d : Deribit) (attempts : Text → List (Attempt DeribitRecoveryEnvelope)) (symbols : List Text)
      → All HasNumber (recover_deribit_symbols {D = D} d attempts symbols).0
  unfolding recover_deribit_symbols
  recover_deribit_symbols-HasNumber d attempts [] = tt
  recover_deribit_symbols-HasNumber d attempts (symbol ∷ symbols) =
      elim (Option-cases (lookup symbol d.last_sequences)) [
        | inl e ↦
            rw (e, recover_deribit_symbols) (recover_deribit_symbols-HasNumber d attempts symbols)
        | inr (cursor, e) ↦
            rw (e, recover_deribit_symbols)
              (All-append HasNumber _ _
                (InSequence-HasNumber symbol (int_add cursor 1) _
                  (recover_deribit_symbol-InSequence D symbol (attempts symbol) (int_add cursor 1)))
                (recover_deribit_symbols-HasNumber d attempts symbols))
      ]

  unless-HasNumber :
      (stops : Bool) (found : List (DeribitParsedTrade D) × List DeribitError)
      → All HasNumber found.0
      → All HasNumber (if stops then ([], []) else found).0
  unless-HasNumber true found h = tt
  unless-HasNumber false found h = h

  pub recover_deribit_trades-HasNumber :
      (d : Deribit) (attempts : Text → List (Attempt DeribitRecoveryEnvelope))
      → All HasNumber (recover_deribit_trades {D = D} d attempts).0
  unfolding recover_deribit_trades stable_sort
  recover_deribit_trades-HasNumber d attempts = by_cursors d.last_sequences refl
    where
      by_cursors :
          (cursors : Dict Text Word)
          → d.last_sequences ≡ cursors
          → All HasNumber (recover_deribit_trades {D = D} d attempts).0
      by_cursors [] e = rw (e, recover_deribit_trades) tt
      by_cursors (entry ∷ rest) e =
          rw (e, recover_deribit_trades)
            (unless-HasNumber (text_eq (trim_space d.rest_url) []) _ (
              All-insert_all deribit_recovered_less HasNumber [] _ tt
                (recover_deribit_symbols-HasNumber d attempts d.symbols)))

  module _ (formats : DeribitFormats) (d : Deribit) where
    channel_trades-HasNumber :
        (envelope : DeribitEnvelope) (received_at : Time)
        → OkHas (All HasNumber) (channel_trades {D = D} formats d envelope received_at)
    unfolding channel_trades stable_sort
    channel_trades-HasNumber envelope received_at =
        let symbol =
          trim_suffix (trim_prefix envelope.channel (bytes "trades.")) (bytes ".100ms") in
        elim (Bool-cases (
          not (has_prefix envelope.channel (bytes "trades."))
          || not (has_suffix envelope.channel (bytes ".100ms")))) [
            | inl other ↦ rw other tt
            | inr ours ↦ elim (Bool-cases (has_symbol d symbol)) [
              | inr unknown ↦ rw (ours, unknown) tt
              | inl known ↦
                  rw (ours, known)
                    (OkHas-then Numbered
                      (wanted DeribitError.parse_trades (formats.trades envelope.payload)) _
                      (λ raw.
                        OkHas-bind Numbered Numbered (parse_deribit_trades symbol raw received_at)
                          (λ parsed. ok (stable_sort sequence_less parsed))
                          (parse_deribit_trades-HasNumber symbol raw received_at)
                          (λ parsed h.
                            All-insert_all sequence_less (HasNumber {D = D}) [] parsed tt h)))
            ]
          ]

    envelope_trades-HasNumber :
        (envelope : DeribitEnvelope) (received_at : Time)
        → OkHas (All HasNumber) (envelope_trades {D = D} formats d envelope received_at)
    unfolding envelope_trades
    envelope_trades-HasNumber envelope received_at = elim (Option-cases envelope.error) [
      | inr (error, e) ↦ rw e tt
      | inl n ↦ elim (Bool-cases (text_eq envelope.method (bytes "subscription"))) [
        | inr other ↦ rw (n, other) tt
        | inl same ↦ rw (n, same) (channel_trades-HasNumber envelope received_at)
      ]
    ]

    parse_deribit_message-HasNumber :
        (data' : Text) (received_at : Time)
        → OkHas (All HasNumber) (parse_deribit_message {D = D} formats d data' received_at)
    unfolding parse_deribit_message
    parse_deribit_message-HasNumber data' received_at =
        OkHas-then Numbered (wanted DeribitError.parse_message (formats.envelope data')) _
          (λ envelope. envelope_trades-HasNumber envelope received_at)

    deribit_message-HasNumber :
        (message : Frame) → OkHas IsOfNumbered (deribit_message {D = D} formats d message)
    unfolding deribit_message
    deribit_message-HasNumber message = elim (Bool-cases message.is_data) [
      | inr other ↦ rw other tt
      | inl text ↦ elim (Result-cases (parse_deribit_response formats d message.payload)) [
        | inr (e, failed) ↦ rw (text, failed) tt
        | inl (is_ack, parsed) ↦ elim (Bool-cases is_ack) [
          | inl ack ↦ rw (text, parsed, ack) tt
          | inr trade ↦
              rw (text, parsed, trade)
                (trades_message-HasNumber
                  (parse_deribit_message formats d message.payload message.received_at)
                  (parse_deribit_message-HasNumber message.payload message.received_at))
        ]
      ]
    ]

    pub await_deribit_subscription-HasNumber :
        (reads : List Read) (buffered : List (DeribitParsedTrade D))
        → All HasNumber buffered
        → OkHas
            (λ found. All HasNumber found.0)
            (await_deribit_subscription {D = D} formats d reads buffered)
    unfolding await_deribit_subscription
    await_deribit_subscription-HasNumber [] buffered h = tt
    await_deribit_subscription-HasNumber (failure ended timed_out normal_close ∷ reads) buffered h =
        tt
    await_deribit_subscription-HasNumber (frame message ∷ reads) buffered h =
        await_deribit_message-HasNumber (await_deribit_subscription formats d reads)
          (await_deribit_subscription-HasNumber reads) reads buffered
          (deribit_message formats d message) (deribit_message-HasNumber message) h

    pub start_deribit_reader-HasNumber :
        (offers : ℕ → Offer) (reads : List Read) (n : ℕ)
        → All HasNumber (start_deribit_reader {D = D} formats d offers reads n).0
    unfolding start_deribit_reader
    start_deribit_reader-HasNumber offers [] n = tt
    start_deribit_reader-HasNumber offers (failure ended timed_out normal_close ∷ reads) n = tt
    start_deribit_reader-HasNumber offers (frame message ∷ reads) n =
        read_deribit_message-HasNumber (start_deribit_reader formats d offers reads)
          (start_deribit_reader-HasNumber offers reads) offers n (deribit_message formats d message)
          (deribit_message-HasNumber message)
