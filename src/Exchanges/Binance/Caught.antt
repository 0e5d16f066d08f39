-- ===== src/Exchanges/Binance/Caught.antt =====
-- What recoverFuturesSymbol gives, in the loop of `run` that emits it.
use go_quant_tick.Common.{
  ℕ, ◌+◌, ◌<◌, ◌≤◌, ◌^◌, ◌≡◌, true, some, List, [], ◌∷◌, Text, Word, text_Eq, Dict, lookup, insert,
  lookup-insert_self, int_add, int_lt, length, arith, refl, inr, ◌∙◌, ap,
}
use go_quant_tick.Trade.{DecimalOps, TradeEvent}
use go_quant_tick.Exchanges.Protocol.{Json}
use go_quant_tick.Exchanges.Runtime.{Attempt}
use go_quant_tick.Exchanges.Binance.{Binance, BinanceParsedTrade, emit_each, above_last}
use go_quant_tick.Exchanges.Binance.Protocol.{BinanceJson}
use go_quant_tick.Exchanges.Binance.Recovery.{recover_futures_symbol}
use go_quant_tick.Exchanges.Binance.Recovery.Consecutive.{Consecutive}
use go_quant_tick.Exchanges.Binance.Recovery.Gapless.{recover_futures_symbol-Consecutive}
use go_quant_tick.Exchanges.Binance.Delivery.{NoGaps, Delivers, raise_new, emit_each-Delivers}

above_next :
    (last_id : Word) → last_id + 1 < 2 ^ 63 → above_last (some last_id) (int_add last_id 1) ≡ true
unfolding above_last int_lt int_add
above_next last_id h = ground arith

int_add_one : (last_id : Word) → last_id + 1 < 2 ^ 63 → int_add last_id 1 ≡ last_id + 1
unfolding int_add
int_add_one last_id h = omega arith

Consecutive-NoGaps :
    {D : Type 0} (symbol : Text) (last_id : Word) (last_ids : Dict Text Word)
    (rows : List (BinanceParsedTrade D))
    → lookup symbol last_ids ≡ some last_id
    → last_id + length rows < 2 ^ 63
    → Consecutive symbol (int_add last_id 1) rows
    → NoGaps last_ids rows
Consecutive-NoGaps symbol last_id last_ids [] known small c = tt
Consecutive-NoGaps symbol last_id last_ids (row ∷ rows) known small c =
    let bound : last_id + 1 < 2 ^ 63 = omega arith in
    let next = int_add_one last_id bound in
    let new : above_last (lookup symbol last_ids) (int_add last_id 1) ≡ true =
      ap (λ o. above_last o (int_add last_id 1)) known ∙ above_next last_id bound in
    rw (c.0.of_symbol, c.0.of_id, known)
      (
        inr refl,
        rw (raise_new last_ids symbol (int_add last_id 1) new) (
            Consecutive-NoGaps symbol (int_add last_id 1)
              (insert symbol (int_add last_id 1) last_ids) rows
              (lookup-insert_self symbol (int_add last_id 1) last_ids) (omega (arith, next)) c.1),
      )

-- Where the adapter knows the last ID of a symbol, the IDs stay below 2 ^ 63, and the context does
-- not end before the trades are received, the trades that the futures market gives for the symbol,
-- from the next ID on, are emitted to the end: the last ID comes to every one of them, all that was
-- sent is marked as sequential, and the last ID of every symbol goes up by the number of its trades
-- that were sent.
pub recovered-Delivers :
    {D : Type 0} ⦃ops : DecimalOps D⦄ ⦃json : Json⦄ (b : Binance) (symbol : Text)
    (decode : BinanceJson) (attempts : List (Attempt (List Text))) (last_id : Word)
    (ids sequence_ids : Dict Text Word) (sent : List (TradeEvent D)) (room : ℕ)
    → lookup symbol b.last_ids ≡ some last_id
    → last_id
        + length
            (recover_futures_symbol {D = D} b symbol decode attempts (int_add last_id 1) ids).rows
      < 2 ^ 63
    → length (recover_futures_symbol {D = D} b symbol decode attempts (int_add last_id 1) ids).rows
      ≤ room
    → Delivers b.last_ids sent
        (recover_futures_symbol b symbol decode attempts (int_add last_id 1) ids).rows
        (emit_each
          (b, sequence_ids, record { sent = sent; room = room })
          (recover_futures_symbol b symbol decode attempts (int_add last_id 1) ids).rows)
recovered-Delivers {D} b symbol decode attempts last_id ids sequence_ids sent room known small
      enough =
    emit_each-Delivers b sequence_ids sent room _ enough (
      Consecutive-NoGaps symbol last_id b.last_ids _ known small
        (recover_futures_symbol-Consecutive D b symbol decode attempts (int_add last_id 1) ids))
