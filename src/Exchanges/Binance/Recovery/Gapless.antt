-- ===== src/Exchanges/Binance/Recovery/Gapless.antt =====
-- The loop over pages of recoverFuturesSymbol and recoverSpotSymbol, and the IDs of what it
-- returns.
use go_quant_tick.Common.{
  ℕ, zero, suc, ◌≡◌, List, [], ◌∷◌, Text, Word, Dict, bytes, ltb, Result, ok, err, length,
  Bool-cases, inl, inr,
}
use go_quant_tick.Trade.{Time, DecimalOps}
use go_quant_tick.Exchanges.Protocol.{Json}
use go_quant_tick.Exchanges.Runtime.{Attempt}
use go_quant_tick.Exchanges.Binance.{
  Binance, BinanceError, binance_recovery_page_limit, binance_recovery_max_pages,
}
use go_quant_tick.Exchanges.Binance.Protocol.{BinanceJson}
use go_quant_tick.Exchanges.Binance.Recovery.{
  PageOutcome, Recovered, recover_pages, recover_answer, recover_next, fetch_page,
  recover_futures_page, recover_futures_symbol, recover_spot_page, recover_spot_symbol,
  BinanceSpotRecoveryTrade,
}
use go_quant_tick.Exchanges.Binance.Recovery.Consecutive.{
  IsPage, Consecutive, after, Consecutive-append, recover_futures_page-IsPage,
  recover_spot_page-IsPage,
}

module _ {D : Type 0} where
  -- The loop over pages keeps what every page has.
  module _ {P : Type 0} (page : Word → List P → Time → Dict Text Word → PageOutcome D)
      (max_weight : Word) (symbol : Text)
      (pages_are : (from : Word) (payloads : List P) (received_at : Time) (ids : Dict Text Word)
        → IsPage symbol from (page from payloads received_at ids)) where
    recover_next-Consecutive :
        (next : List (Attempt (List P)) → Word → Dict Text Word → Recovered D)
        (attempts : List (Attempt (List P))) (payloads : List P) (from : Word)
        (outcome : PageOutcome D)
        → IsPage symbol from outcome
        → ((later : Word) (ids : Dict Text Word)
            → Consecutive symbol later (next attempts later ids).rows)
        → Consecutive symbol from (recover_next page max_weight next attempts payloads outcome).rows
    unfolding recover_next
    recover_next-Consecutive next attempts payloads from outcome is_page h = elim is_page.expects [
      | inl (e, failed) ↦ rw (failed, recover_next) is_page.rows_Consecutive
      | inr expected ↦ elim (Bool-cases (ltb (length payloads) binance_recovery_page_limit)) [
        | inl last ↦ rw (expected, recover_next) (rw last is_page.rows_Consecutive)
        | inr full ↦
            rw (expected, recover_next)
              (rw full (
                Consecutive-append symbol from outcome.rows _ is_page.rows_Consecutive
                  (h (after from outcome.rows) outcome.sequence_ids)))
      ]
    ]

    recover_answer-Consecutive :
        (next : List (Attempt (List P)) → Word → Dict Text Word → Recovered D) (from : Word)
        (ids : Dict Text Word) (answer : Result BinanceError (List P × Time))
        (attempts : List (Attempt (List P)))
        → ((later : Word) (ids : Dict Text Word)
            → Consecutive symbol later (next attempts later ids).rows)
        → Consecutive symbol from
            (recover_answer page max_weight next from ids answer attempts).rows
    unfolding recover_answer
    recover_answer-Consecutive next from ids (err e) attempts h = tt
    recover_answer-Consecutive next from ids (ok ([], received_at)) attempts h = tt
    recover_answer-Consecutive next from ids (ok (payload ∷ payloads, received_at)) attempts h =
        recover_next-Consecutive next attempts (payload ∷ payloads) from
          (page from (payload ∷ payloads) received_at ids)
          (pages_are from (payload ∷ payloads) received_at ids) h

    recover_pages-Consecutive :
        (pages : ℕ) (attempts : List (Attempt (List P))) (from : Word) (ids : Dict Text Word)
        → Consecutive symbol from (recover_pages page max_weight pages attempts from ids).rows
    unfolding recover_pages
    recover_pages-Consecutive zero attempts from ids = tt
    recover_pages-Consecutive (suc pages) attempts from ids =
        let answer = fetch_page max_weight attempts in
        recover_answer-Consecutive (recover_pages page max_weight pages) from ids answer.0 answer.1
          (recover_pages-Consecutive pages answer.1)

-- The trades that the futures market gives for a symbol are of that symbol and have the IDs from
-- the one that was asked for on, one by one without a gap, whatever the venue answers and however
-- the requests end. Their UIDs are the prints of their IDs.
pub recover_futures_symbol-Consecutive :
    (D : Type 0) ⦃ops : DecimalOps D⦄ ⦃json : Json⦄ (b : Binance) (symbol : Text)
    (decode : BinanceJson) (attempts : List (Attempt (List Text))) (from : Word)
    (ids : Dict Text Word)
    → Consecutive symbol from
        (recover_futures_symbol {D = D} b symbol decode attempts from ids).rows
unfolding recover_futures_symbol
recover_futures_symbol-Consecutive D b symbol decode =
    recover_pages-Consecutive (recover_futures_page b symbol decode) b.recovery_max_weight symbol
      (recover_futures_page-IsPage b symbol decode) binance_recovery_max_pages

pub recover_spot_symbol-Consecutive :
    (D : Type 0) ⦃ops : DecimalOps D⦄ (b : Binance) (symbol : Text)
    (attempts : List (Attempt (List BinanceSpotRecoveryTrade))) (from : Word) (ids : Dict Text Word)
    → b.stream ≡ bytes "trade"
    → Consecutive symbol from (recover_spot_symbol {D = D} b symbol attempts from ids).rows
unfolding recover_spot_symbol
recover_spot_symbol-Consecutive D b symbol attempts from ids spot =
    recover_pages-Consecutive (recover_spot_page b symbol) b.recovery_max_weight symbol
      (recover_spot_page-IsPage b symbol spot) binance_recovery_max_pages attempts from ids
