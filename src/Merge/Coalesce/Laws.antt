-- ===== src/Merge/Coalesce/Laws.antt =====
-- aggregateTradeEvents of quanttick/websocket_data_merge.go: its errors, a second pass over its
-- result, and the sums.
use go_quant_tick.Common.{◌≡◌, List, ok}
use go_quant_tick.Trade.{DecimalOps, DecimalLaws, TradeEvent}
use go_quant_tick.Aggregator.Measure.{sum_of, volumes, notionals, tick_counts}
use go_quant_tick.Merge.Coalesce.{aggregate_trade_events}
use go_quant_tick.Merge.Coalesce.Runs.{
  samples, aggregate_trade_events-samples, IsSeparated, samples-IsSeparated, samples_of_IsSeparated,
}
use go_quant_tick.Merge.Coalesce.Conservation.{sum_of-samples}

module _ {D : Type 0} ⦃ops : DecimalOps D⦄ where
  -- It returns a list in which no two neighbours have one sample, and which a second pass returns
  -- as it is.
  pub aggregate_trade_events_idem :
      (trades : List (TradeEvent D))
      → (out : List (TradeEvent D)) × (aggregate_trade_events trades ≡ ok out)
        × IsSeparated out
        × (aggregate_trade_events out ≡ ok out)
  aggregate_trade_events_idem trades =
      let separated = samples-IsSeparated trades in
      (
        samples trades,
        aggregate_trade_events-samples trades,
        separated,
        rw (samples_of_IsSeparated (samples trades) separated) at
            (aggregate_trade_events-samples (samples trades)),
      )

module _ {D : Type 0} ⦃ops : DecimalOps D⦄ ⦃laws : DecimalLaws D⦄ where
  -- The trades that it returns have together the volume, the notional and the ticks of those that
  -- it is given.
  pub aggregate_trade_events-sum_of :
      (trades out : List (TradeEvent D))
      → aggregate_trade_events trades ≡ ok out
      → (sum_of volumes out ≡ sum_of volumes trades)
        × (sum_of notionals out ≡ sum_of notionals trades)
        × (sum_of tick_counts out ≡ sum_of tick_counts trades)
  aggregate_trade_events-sum_of trades out h =
      let e : samples trades ≡ out = cc (aggregate_trade_events-samples trades, h) in
      rw (← e) (
        sum_of-samples volumes trades,
        sum_of-samples notionals trades,
        sum_of-samples tick_counts trades,
      )
