-- ===== src/Examples/Ticks.antt =====
-- significant_aggregator.go.
use go_quant_tick.Common.{
  insert, ◌+◌, ◌*◌, ◌++◌, text_Eq, lookup, ℕ, ◌≡◌, refl, true, false, List, [], ◌∷◌, ok, All, some,
  none, Everywhere-empty, bytes,
}
use go_quant_tick.Trade.{TradeEvent, trade_key, minute}
use go_quant_tick.Significant.{
  SignificantTradeAggregator, SignificantTrade, new_significant_trade_aggregator, add, flush,
  aggregate, is_significant, threshold_for, Window,
}
use go_quant_tick.Significant.Segments.{Segment, tick_of}
use go_quant_tick.Significant.Accounts.{
  IsHeld, IsWellFormed, Emits, held, with_held, with_held-IsWellFormed, closing, SameWindows,
  flush-Emits,
}
use go_quant_tick.Significant.Outcome.{Outcome, add-Outcome}
use go_quant_tick.Significant.Totals.{SumsUp}
use go_quant_tick.Significant.Range.{Bounds}
use go_quant_tick.Significant.Ticks.{aggregate-SumsUp}
use go_quant_tick.Examples.Decimals.{nat_decimals, nat_decimal_laws, buy_1, sell_3}

abbrev fresh : SignificantTradeAggregator ℕ
unfolding new_significant_trade_aggregator
fresh = new_significant_trade_aggregator 500 [] minute

fresh-IsWellFormed : IsWellFormed fresh
unfolding new_significant_trade_aggregator
fresh-IsWellFormed = Everywhere-empty (IsHeld fresh)

-- The first trade is held, in the window of the first minute.
abbrev holding : SignificantTradeAggregator ℕ
unfolding fresh new_significant_trade_aggregator
holding = record (with_held fresh (trade_key buy_1) (buy_1 ∷ [])) {
  windows = (trade_key buy_1, record { start = 0; stop = minute }) ∷ [];
}

holding_quiet : is_significant fresh buy_1 ≡ false
unfolding fresh new_significant_trade_aggregator is_significant threshold_for lookup
holding_quiet = refl

holding-IsWellFormed : IsWellFormed holding
unfolding holding is_significant threshold_for
holding-IsWellFormed = record {
  at_key =
      (with_held-IsWellFormed fresh (trade_key buy_1) (buy_1 ∷ []) fresh-IsWellFormed
        ((holding_quiet, refl), tt)).at_key;
}

-- a significant trade two minutes later
abbrev next_trade : TradeEvent ℕ
next_trade = record sell_3 { timestamp = 2 * minute + 7 }

add-Outcome_example : Outcome holding next_trade (add holding next_trade)
add-Outcome_example = add-Outcome holding next_trade holding-IsWellFormed

flush-Emits_example :
    Emits holding
      (trade_key buy_1)
      (held (trade_key buy_1) holding)
      (closing (held (trade_key buy_1) holding))
      []
      (flush holding (trade_key buy_1))
    × SameWindows holding (flush holding (trade_key buy_1)).0
flush-Emits_example = flush-Emits holding (trade_key buy_1) holding-IsWellFormed

test_closing :
    closing (held (trade_key buy_1) holding)
    ≡ record { first = buy_1; rest = []; found = none } ∷ []
unfolding holding lookup insert go_quant_tick.Aggregator.pending trade_key
    go_quant_tick.Trade.exchange_symbol_key
test_closing = refl

abbrev tick : SignificantTrade ℕ
unfolding tick_of
tick = tick_of fresh false (record { first = buy_1; rest = sell_3 ∷ []; found = some sell_3 })

aggregates_tick : aggregate fresh (buy_1 ∷ sell_3 ∷ []) false ≡ ok tick
unfolding aggregate go_quant_tick.Significant.scan go_quant_tick.Significant.mark
    go_quant_tick.Significant.is_significant go_quant_tick.Significant.threshold_for
    go_quant_tick.Common.lookup fresh tick go_quant_tick.Significant.with_significant
    go_quant_tick.Significant.Segments.summary go_quant_tick.Significant.summarize
aggregates_tick = refl

aggregate-SumsUp_example :
    SumsUp tick (buy_1 ∷ sell_3 ∷ []) × All (Bounds tick.low tick.high) (buy_1 ∷ sell_3 ∷ [])
aggregate-SumsUp_example = aggregate-SumsUp fresh buy_1 (sell_3 ∷ []) false tick aggregates_tick
