-- ===== src/Aggregator.antt =====
-- quanttick/trade_aggregator.go: sequential trades of one market, timestamp and tick rule become
-- one trade. A method returns the state that it leaves beside its result.
pub mod Sample
pub mod Safety
pub mod Pending
pub mod Measure
use go_quant_tick.Common.{
  ◌≡◌, Bool, true, ◌&&◌, Option, none, some, List, [], ◌∷◌, ◌++◌, Text, text_Eq, Word, int_add,
  nat_eq, text_eq, if◌then◌else◌, Result, ok, err, ◌>>=◌, last_of, Dict, lookup, insert, delete,
}
use go_quant_tick.Trade.{DecimalOps, TradeEvent, trade_key}

pub data AggregateError : Type 0 where
  empty_trade_set : AggregateError
  sample_mismatch : Text → AggregateError

module _ {D : Type 0} where
  unfoldable pub same_sample : TradeEvent D → TradeEvent D → Bool
  same_sample left right =
      text_eq left.exchange right.exchange
      && text_eq left.symbol right.symbol
      && nat_eq left.timestamp right.timestamp
      && nat_eq left.nanoseconds right.nanoseconds
      && nat_eq left.tick_rule right.tick_rule

-- The variables of the loop of `aggregateTrades`.
pub record Totals (D : Type 0) : Type 0 where
  pub volume : D
  pub notional : D
  pub ticks : Word
  pub all_sequential : Bool

module _ {D : Type 0} ⦃ops : DecimalOps D⦄ where
  unfoldable pub no_totals : Totals D
  no_totals = record {
    volume = ops.zero_value;
    notional = ops.zero_value;
    ticks = 0;
    all_sequential = true;
  }

  unfoldable pub add_trade : Totals D → TradeEvent D → Totals D
  add_trade t trade = record {
    volume = ops.add t.volume trade.volume;
    notional = ops.add t.notional trade.notional;
    ticks = int_add t.ticks trade.ticks;
    all_sequential = t.all_sequential && trade.is_sequential;
  }

  unfoldable pub sum_trades :
      TradeEvent D → Totals D → List (TradeEvent D) → Result AggregateError (Totals D)
  sum_trades first t [] = ok t
  sum_trades first t (trade ∷ rest) =
      let totals = sum_trades first (add_trade t trade) rest in
      if same_sample first trade then totals else err (sample_mismatch (trade_key first))

  unfoldable pub aggregated : TradeEvent D → TradeEvent D → Totals D → TradeEvent D
  aggregated first last t = record last {
    uid = first.uid;
    volume = t.volume;
    notional = t.notional;
    ticks = t.ticks;
    is_sequential = t.all_sequential;
  }

  unfoldable pub aggregate_trades : List (TradeEvent D) → Result AggregateError (TradeEvent D)
  unfolding no_totals sum_trades aggregated add_trade
  aggregate_trades [] = err empty_trade_set
  aggregate_trades (last ∷ []) = ok last
  aggregate_trades (first ∷ second ∷ rest) =
      sum_trades first no_totals (first ∷ second ∷ rest) >>= λ t.
      ok (aggregated first (last_of second rest) t)

pub record TradeAggregator (D : Type 0) : Type 0 where
  pub trades : Dict Text (List (TradeEvent D))

-- `trades[key]`, which is nil for a missing key
unfoldable pub pending {ℓ} : {A : Type ℓ} → Text → Dict Text (List A) → List A
pending key trades = elim (lookup key trades) [ none ↦ [] | some l ↦ l ]

-- What `Add` and `Flush` leave and return.
abbrev pub Stepped : Type 0 → Type 0
Stepped D = TradeAggregator D × Result AggregateError (List (TradeEvent D))

module _ {D : Type 0} where
  unfoldable pub new_trade_aggregator : TradeAggregator D
  new_trade_aggregator = record { trades = [] }

module _ {D : Type 0} ⦃ops : DecimalOps D⦄ where
  -- the part of `Add` behind the test for an empty list, on the list with head `first`
  unfoldable pub add_to :
      TradeAggregator D → TradeEvent D → TradeEvent D → List (TradeEvent D) → Stepped D
  add_to a trade first rest =
      let key = trade_key trade in
      if same_sample (last_of first rest) trade
      then (record { trades = insert key ((first ∷ rest) ++ trade ∷ []) a.trades }, ok [])
      else elim (aggregate_trades (first ∷ rest)) [
        | err e ↦ (a, err e)
        | ok sample ↦ (record { trades = insert key (trade ∷ []) a.trades }, ok (sample ∷ []))
      ]

  unfoldable pub add : TradeAggregator D → TradeEvent D → Stepped D
  unfolding add_to pending
  add a trade = elim (pending (trade_key trade) a.trades) [
    | [] ↦ (record { trades = insert (trade_key trade) (trade ∷ []) a.trades }, ok [])
    | first ∷ rest ↦ add_to a trade first rest
  ]

  unfoldable pub flush : TradeAggregator D → Text → Stepped D
  unfolding pending
  flush a key = elim (pending key a.trades) [
    | [] ↦ (a, ok [])
    | first ∷ rest ↦ elim (aggregate_trades (first ∷ rest)) [
      | err e ↦ (a, err e)
      | ok sample ↦ (record { trades = delete key a.trades }, ok (sample ∷ []))
    ]
  ]
