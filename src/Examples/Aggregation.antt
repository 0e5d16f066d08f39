-- ===== src/Examples/Aggregation.antt =====
-- trade_aggregator.go and aggregateTradeEvents.
use go_quant_tick.Common.{
  lookup, ◌≡◌, refl, true, List, [], ◌∷◌, Text, ok, ℕ, Result, Option, none, some, bytes, lookup,
}
use go_quant_tick.Trade.{TradeEvent, trade_key}
use go_quant_tick.Aggregator.{
  TradeAggregator, new_trade_aggregator, pending, same_sample, AggregateError,
}
use go_quant_tick.Aggregator.Safety.{IsSafe, add-IsSafe, new_trade_aggregator-IsWellFormed}
use go_quant_tick.Aggregator
use go_quant_tick.Aggregator.Measure.{sum_of, volumes, notionals, tick_counts}
use go_quant_tick.Merge.Coalesce.{aggregate_trade_events}
use go_quant_tick.Merge.Coalesce.Runs.{IsSeparated}
use go_quant_tick.Merge.Coalesce.Laws.{aggregate_trade_events_idem, aggregate_trade_events-sum_of}
use go_quant_tick.Merge.Streaming.{collect, collect-eq-aggregate_trade_events}
use go_quant_tick.Examples.Decimals.{nat_decimals, nat_decimal_laws, buy_1, buy_2, sell_3}

abbrev trades : List (TradeEvent ℕ)
trades = buy_1 ∷ buy_2 ∷ sell_3 ∷ []

abbrev buys : TradeEvent ℕ
buys = record buy_2 { uid = bytes "1"; volume = 53; notional = 5; ticks = 2 }

aggregates : aggregate_trade_events trades ≡ ok (buys ∷ sell_3 ∷ [])
unfolding aggregate_trade_events same_sample Aggregator.aggregate_trades
    go_quant_tick.Common.int_add
aggregates = refl

collect-eq-aggregate_trade_events_example :
    collect new_trade_aggregator trades (trade_key buy_1) ≡ aggregate_trade_events trades
unfolding new_trade_aggregator pending lookup trade_key
collect-eq-aggregate_trade_events_example =
    collect-eq-aggregate_trade_events new_trade_aggregator (trade_key buy_1) trades refl
      (refl, (refl, (refl, tt)))

add-IsSafe_example : IsSafe (Aggregator.add new_trade_aggregator buy_1)
add-IsSafe_example = add-IsSafe new_trade_aggregator buy_1 new_trade_aggregator-IsWellFormed

aggregate_trade_events_idem_example :
    (out : List (TradeEvent ℕ)) × (aggregate_trade_events trades ≡ ok out)
    × IsSeparated out
    × (aggregate_trade_events out ≡ ok out)
aggregate_trade_events_idem_example = aggregate_trade_events_idem trades

aggregate_trade_events-sum_of_example :
    (sum_of volumes (buys ∷ sell_3 ∷ []) ≡ sum_of volumes trades)
    × (sum_of notionals (buys ∷ sell_3 ∷ []) ≡ sum_of notionals trades)
    × (sum_of tick_counts (buys ∷ sell_3 ∷ []) ≡ sum_of tick_counts trades)
aggregate_trade_events-sum_of_example =
    aggregate_trade_events-sum_of trades (buys ∷ sell_3 ∷ []) aggregates
