-- ===== src/Merge/Coalesce.antt =====
-- aggregateTradeEvents of quanttick/websocket_data_merge.go: each maximal run of trades of one
-- sample becomes one trade.
pub mod Runs
pub mod Conservation
pub mod Laws
use go_quant_tick.Common.{◌≡◌, true, false, List, [], ◌∷◌, ◌++◌, Result, ok, err, ◌>>=◌}
use go_quant_tick.Trade.{DecimalOps, TradeEvent}
use go_quant_tick.Aggregator.{AggregateError, same_sample, aggregate_trades}

module _ {D : Type 0} ⦃ops : DecimalOps D⦄ where
  -- The loop: `start` is trades[start], `segment` is trades[start+1 : index], and the last argument
  -- is trades[index:].
  unfoldable pub coalesce_from :
      TradeEvent D
      → List (TradeEvent D)
      → List (TradeEvent D)
      → Result AggregateError (List (TradeEvent D))
  coalesce_from start segment [] = aggregate_trades (start ∷ segment) >>= λ sample. ok (sample ∷ [])
  coalesce_from start segment (trade ∷ rest) = elim (same_sample start trade) [
    | true ↦ coalesce_from start (segment ++ trade ∷ []) rest
    | false ↦ aggregate_trades (start ∷ segment) >>= λ sample.
        coalesce_from trade [] rest >>= λ samples. ok (sample ∷ samples)
  ]

  unfoldable pub aggregate_trade_events :
      List (TradeEvent D) → Result AggregateError (List (TradeEvent D))
  unfolding coalesce_from
  aggregate_trade_events [] = ok []
  aggregate_trade_events (first ∷ rest) = coalesce_from first [] rest
