-- ===== src/Significant.antt =====
-- quanttick/significant_aggregator.go: trades are held back until one is as large as its market's
-- threshold, and until the minute window ends.
pub mod Segments
pub mod Accounts
pub mod Adding
pub mod Outcome
pub mod Totals
pub mod Ticks
pub mod Range
use go_quant_tick.Common.{
  ◌+◌, ◌≡◌, Bool, true, false, ◌&&◌, not, Option, none, some, List, [], ◌∷◌, ◌++◌, Text, text_Eq,
  Word, int_add, nat_eq, leb, ltb, if◌then◌else◌, Result, ok, err, ◌>>=◌, last_of, Dict, lookup,
  insert,
}
use go_quant_tick.Trade.{
  Time, Duration, minute, truncate, DecimalOps, TradeEvent, exchange_symbol_key, trade_key,
}
use go_quant_tick.Aggregator.{pending}

pub record SignificantTrade (D : Type 0) : Type 0 where
  pub exchange : Text
  pub uid : Text
  pub symbol : Text
  pub timestamp : Time
  pub nanoseconds : Word
  pub price : D
  pub volume : Option D
  pub notional : Option D
  pub tick_rule : Option Word
  pub ticks : Option Word
  pub is_sequential : Bool
  pub high : D
  pub low : D
  pub total_buy_volume : D
  pub total_volume : D
  pub total_buy_notional : D
  pub total_notional : D
  pub total_buy_ticks : Word
  pub total_ticks : Word
  pub significant_trade_filter : D
  pub is_late : Bool

pub data SignificantError : Type 0 where
  empty_trade_set : SignificantError
  more_than_one : Text → SignificantError

pub record Window : Type 0 where
  pub start : Time
  pub stop : Time

pub record SignificantTradeAggregator (D : Type 0) : Type 0 where
  pub threshold : D
  pub thresholds : Dict Text D
  pub window_duration : Duration
  pub trades : Dict Text (List (TradeEvent D))
  pub windows : Dict Text Window

-- The variables of the loop of `aggregate`.
pub record Summary (D : Type 0) : Type 0 where
  pub high : D
  pub low : D
  pub total_buy_volume : D
  pub total_volume : D
  pub total_buy_notional : D
  pub total_notional : D
  pub total_buy_ticks : Word
  pub total_ticks : Word
  pub all_sequential : Bool

abbrev pub Stepped : Type 0 → Type 0
Stepped D = SignificantTradeAggregator D × Result SignificantError (List (SignificantTrade D))

-- `NewSignificantTradeAggregatorWithThresholds`; the clone of the thresholds is the same map.
module _ {D : Type 0} where
  unfoldable pub new_significant_trade_aggregator :
      D → Dict Text D → Duration → SignificantTradeAggregator D
  new_significant_trade_aggregator threshold thresholds window_duration = record {
    threshold = threshold;
    thresholds = thresholds;
    window_duration = window_duration;
    trades = [];
    windows = [];
  }

  unfoldable pub threshold_for : SignificantTradeAggregator D → TradeEvent D → D
  threshold_for a trade =
      elim (lookup (exchange_symbol_key trade.exchange trade.symbol) a.thresholds) [
        | some threshold ↦ threshold
        | none ↦ a.threshold
      ]

  -- `setWindow`: `time.Date` to the minute, of a time in UTC
  unfoldable pub set_window :
      SignificantTradeAggregator D → Text → Time → Window × SignificantTradeAggregator D
  set_window a key timestamp =
      let start = truncate minute timestamp in
      let win : Window = record { start = start; stop = start + a.window_duration } in
      (win, record a { windows = insert key win a.windows })

module _ {D : Type 0} ⦃ops : DecimalOps D⦄ where
  unfoldable pub is_significant : SignificantTradeAggregator D → TradeEvent D → Bool
  is_significant a trade = ops.greater_than_or_equal trade.volume (threshold_for a trade)

  unfoldable pub no_summary : TradeEvent D → Summary D
  no_summary first = record {
    high = first.price;
    low = first.price;
    total_buy_volume = ops.zero_value;
    total_volume = ops.zero_value;
    total_buy_notional = ops.zero_value;
    total_notional = ops.zero_value;
    total_buy_ticks = 0;
    total_ticks = 0;
    all_sequential = true;
  }

  unfoldable pub summarize : Summary D → TradeEvent D → Summary D
  summarize s trade =
      let buy = nat_eq trade.tick_rule 1 in
      record {
        high = if ops.greater_than trade.price s.high then trade.price else s.high;
        low = if ops.less_than trade.price s.low then trade.price else s.low;
        total_buy_volume =
            if buy then ops.add s.total_buy_volume trade.volume else s.total_buy_volume;
        total_volume = ops.add s.total_volume trade.volume;
        total_buy_notional =
            if buy then ops.add s.total_buy_notional trade.notional else s.total_buy_notional;
        total_notional = ops.add s.total_notional trade.notional;
        total_buy_ticks = if buy then int_add s.total_buy_ticks trade.ticks else s.total_buy_ticks;
        total_ticks = int_add s.total_ticks trade.ticks;
        all_sequential = s.all_sequential && trade.is_sequential;
      }

  -- the end of a round of the loop: the significant trade found so far
  unfoldable pub mark :
      SignificantTradeAggregator D
      → Option (TradeEvent D)
      → TradeEvent D
      → Result SignificantError (Option (TradeEvent D))
  mark a significant trade =
      if is_significant a trade
      then elim significant [ none ↦ ok (some trade) | some _ ↦ err (more_than_one trade.symbol) ]
      else ok significant

  unfoldable pub scan :
      SignificantTradeAggregator D
      → Summary D
      → Option (TradeEvent D)
      → List (TradeEvent D)
      → Result SignificantError (Summary D × Option (TradeEvent D))
  scan a s significant [] = ok (s, significant)
  scan a s significant (trade ∷ rest) =
      mark a significant trade >>= λ found. scan a (summarize s trade) found rest

  -- the result for the last trade, before a significant one replaces its values
  unfoldable pub context_tick : TradeEvent D → Summary D → D → Bool → SignificantTrade D
  context_tick base s filter is_late = record {
    exchange = base.exchange;
    uid = base.uid;
    symbol = base.symbol;
    timestamp = base.timestamp;
    nanoseconds = base.nanoseconds;
    price = base.price;
    volume = none;
    notional = none;
    tick_rule = none;
    ticks = none;
    is_sequential = s.all_sequential;
    high = s.high;
    low = s.low;
    total_buy_volume = s.total_buy_volume;
    total_volume = s.total_volume;
    total_buy_notional = s.total_buy_notional;
    total_notional = s.total_notional;
    total_buy_ticks = s.total_buy_ticks;
    total_ticks = s.total_ticks;
    significant_trade_filter = filter;
    is_late = is_late;
  }

  unfoldable pub with_significant : SignificantTrade D → Option (TradeEvent D) → SignificantTrade D
  with_significant tick none = tick
  with_significant tick (some significant) = record tick {
    exchange = significant.exchange;
    uid = significant.uid;
    symbol = significant.symbol;
    timestamp = significant.timestamp;
    nanoseconds = significant.nanoseconds;
    price = significant.price;
    volume = some significant.volume;
    notional = some significant.notional;
    tick_rule = some significant.tick_rule;
    ticks = some significant.ticks;
  }

  unfoldable pub aggregate :
      SignificantTradeAggregator D
      → List (TradeEvent D)
      → Bool
      → Result SignificantError (SignificantTrade D)
  aggregate a [] is_late = err empty_trade_set
  aggregate a (first ∷ rest) is_late =
      let base = last_of first rest in
      scan a (no_summary first) none (first ∷ rest) >>= λ found.
      ok (with_significant (context_tick base found.0 (threshold_for a base) is_late) found.1)

  -- `getTick`; `none` is its `false`
  unfoldable pub get_tick :
      SignificantTradeAggregator D
      → Text
      → SignificantTradeAggregator D × Result SignificantError (Option (SignificantTrade D))
  get_tick a key = elim (pending key a.trades) [
    | [] ↦ (a, ok none)
    | first ∷ rest ↦ elim (aggregate a (first ∷ rest) false) [
      | err e ↦ (a, err e)
      | ok tick ↦ (record a { trades = insert key [] a.trades }, ok (some tick))
    ]
  ]

  -- the result of `getTick` as the list that its callers return
  unfoldable pub flush : SignificantTradeAggregator D → Text → Stepped D
  flush a key =
      let (a', r) = get_tick a key in
      (a', r >>= λ o. ok (elim o [ none ↦ [] | some tick ↦ tick ∷ [] ]))

  unfoldable pub hold : SignificantTradeAggregator D → TradeEvent D → SignificantTradeAggregator D
  hold a trade =
      let key = trade_key trade in
      record a { trades = insert key (pending key a.trades ++ trade ∷ []) a.trades }

  unfoldable pub get_significant_trade_or_tick :
      SignificantTradeAggregator D → TradeEvent D → Stepped D
  get_significant_trade_or_tick a trade =
      let held = hold a trade in
      if is_significant a trade then flush held (trade_key trade) else (held, ok [])

  -- the branch of `Add` for a trade at or behind the end of the window, from its first `getTick` on
  unfoldable pub rolled :
      SignificantTradeAggregator D → TradeEvent D → List (SignificantTrade D) → Stepped D
  rolled closed trade ticks =
      let (next, r) = get_significant_trade_or_tick closed trade in
      elim r [
        | err e ↦ (next, err e)
        | ok more ↦ ((set_window next (trade_key trade) trade.timestamp).1, ok (ticks ++ more))
      ]

  unfoldable pub roll : SignificantTradeAggregator D → TradeEvent D → Stepped D
  roll a trade =
      let (closed, r) = flush a (trade_key trade) in
      elim r [ err e ↦ (closed, err e) | ok ticks ↦ rolled closed trade ticks ]

  -- `Add` with the window of the trade's key
  unfoldable pub add_in : Window → SignificantTradeAggregator D → TradeEvent D → Stepped D
  add_in win a trade =
      if ltb trade.timestamp win.start
      then (a, aggregate a (trade ∷ []) true >>= λ tick. ok (tick ∷ []))
      else if not (ltb trade.timestamp win.stop)
      then roll a trade
      else get_significant_trade_or_tick a trade

  unfoldable pub touch : SignificantTradeAggregator D → Text → SignificantTradeAggregator D
  touch a key = elim (lookup key a.trades) [
    | none ↦ record a { trades = insert key [] a.trades }
    | some _ ↦ a
  ]

  -- `Add` behind its first lines
  unfoldable pub add_touched : SignificantTradeAggregator D → TradeEvent D → Stepped D
  add_touched a trade =
      let key = trade_key trade in
      if leb a.window_duration 0
      then get_significant_trade_or_tick a trade
      else elim (lookup key a.windows) [
        | some win ↦ add_in win a trade
        | none ↦ let (win, opened) = set_window a key trade.timestamp in add_in win opened trade
      ]

  unfoldable pub add : SignificantTradeAggregator D → TradeEvent D → Stepped D
  add a trade = add_touched (touch a (trade_key trade)) trade
