-- ===== src/Pipeline.antt =====
-- quanttick/pipeline.go: trades go through the two aggregators to the publishers. What the
-- publishers are given is a trace; whether one accepts its next payload is a parameter, as are the
-- streams that have a publisher. The loop of RunExchanges is not part of this.
pub mod Session
use go_quant_tick.Common.{
  ℕ, ◌≡◌, Bool, true, false, ◌&&◌, ◌||◌, not, Option, none, some, List, [], ◌∷◌, ◌++◌, Text,
  text_eq, text_lt, text_Eq, bytes, ltb, if◌then◌else◌, Result, ok, err, ◌>>=◌, Dict, stable_sort,
  last_of,
}
use go_quant_tick.Trade.{
  Time, Duration, minute, truncate, DecimalOps, TradeEvent, exchange_symbol_key,
}
use go_quant_tick.Aggregator.{AggregateError, TradeAggregator, new_trade_aggregator, pending}
use go_quant_tick.Aggregator
use go_quant_tick.Significant.{
  SignificantTrade, SignificantError, SignificantTradeAggregator, new_significant_trade_aggregator,
}
use go_quant_tick.Significant
use go_quant_tick.Stream.{Stream, raw_trades, aggregated_trades, significant_trades}

-- A payload that is given to a publisher.
pub data Published (D : Type 0) : Type 0 where
  raw : TradeEvent D → Published D
  aggregated : TradeEvent D → Published D
  significant : SignificantTrade D → Published D

pub data PipelineError : Type 0 where
  publish_failed : PipelineError
  aggregate_trade : AggregateError → PipelineError
  aggregate_significant_trade : SignificantError → PipelineError

-- `accepts` is the publishers' answer to a payload, given what was published before it.
pub record PipelineConfig (D : Type 0) : Type 0 where
  pub has_raw : Bool
  pub has_aggregated : Bool
  pub has_significant : Bool
  pub significant_threshold : D
  pub significant_thresholds : Dict Text D
  pub window_duration : Duration
  pub accepts : List (Published D) → Published D → Bool

-- The aggregators, where they exist, and what was published so far.
pub record TradePipeline (D : Type 0) : Type 0 where
  pub trade_aggregator : Option (TradeAggregator D)
  pub significant_aggregator : Option (SignificantTradeAggregator D)
  pub trace : List (Published D)

abbrev pub Handled : Type 0 → Type 0
Handled D = TradePipeline D × Result PipelineError (Unit {0})

-- A step that may fail, and what is done behind it only where it succeeds.
abbrev pub and_then : {D : Type 0} → Handled D → (TradePipeline D → Handled D) → Handled D
and_then (p, ok _) f = f p
and_then (p, err e) f = (p, err e)

module _ {D : Type 0} (config : PipelineConfig D) where
  unfoldable pub new_trade_pipeline : TradePipeline D
  new_trade_pipeline = record {
    trade_aggregator =
        if config.has_aggregated || config.has_significant then some new_trade_aggregator else none;
    significant_aggregator =
        if config.has_significant
        then some (
            new_significant_trade_aggregator config.significant_threshold
              config.significant_thresholds config.window_duration)
        else none;
    trace = [];
  }

  -- `Publish`: a publisher that refuses a payload has not published it
  unfoldable pub publish : Published D → TradePipeline D → Handled D
  publish payload p =
      if config.accepts p.trace payload
      then (record p { trace = p.trace ++ payload ∷ [] }, ok tt)
      else (p, err publish_failed)

  unfoldable pub publish_significant_trades :
      List (SignificantTrade D) → TradePipeline D → Handled D
  publish_significant_trades [] p = (p, ok tt)
  publish_significant_trades (s ∷ rest) p =
      and_then (publish (significant s) p) (publish_significant_trades rest)

module _ {D : Type 0} ⦃ops : DecimalOps D⦄ (config : PipelineConfig D) where
  -- one sample through the aggregated publisher
  unfoldable pub publish_aggregated : TradeEvent D → TradePipeline D → Handled D
  publish_aggregated sample p =
      if config.has_aggregated then publish config (aggregated sample) p else (p, ok tt)

  -- the significant aggregator's part in a sample
  unfoldable pub add_significant : TradeEvent D → TradePipeline D → Handled D
  add_significant sample p = elim p.significant_aggregator [
    | none ↦ (p, ok tt)
    | some a ↦
        let (a', r) = Significant.add a sample in
        let next = record p { significant_aggregator = some a' } in
        elim r [
          | err e ↦ (next, err (aggregate_significant_trade e))
          | ok ticks ↦ publish_significant_trades config ticks next
        ]
  ]

  -- the loop over the samples, the same in `Handle` and in `flushAggregatedTradeKey`
  unfoldable pub handle_samples : List (TradeEvent D) → TradePipeline D → Handled D
  handle_samples [] p = (p, ok tt)
  handle_samples (sample ∷ rest) p =
      and_then (publish_aggregated sample p)
        (λ q. and_then (add_significant sample q) (handle_samples rest))

  unfoldable pub publish_raw : TradeEvent D → TradePipeline D → Handled D
  publish_raw trade p = if config.has_raw then publish config (raw trade) p else (p, ok tt)

  -- `Handle` behind the raw publisher
  unfoldable pub handle_aggregated : TradeEvent D → TradePipeline D → Handled D
  handle_aggregated trade p = elim p.trade_aggregator [
    | none ↦ (p, ok tt)
    | some a ↦
        let (a', r) = Aggregator.add a trade in
        let next = record p { trade_aggregator = some a' } in
        elim r [
          | err e ↦ (next, err (aggregate_trade e))
          | ok samples ↦ handle_samples samples next
        ]
  ]

  unfoldable pub handle : TradeEvent D → TradePipeline D → Handled D
  handle trade p = and_then (publish_raw trade p) (handle_aggregated trade)

  unfoldable pub flush_aggregated_trade_key : Text → TradePipeline D → Handled D
  flush_aggregated_trade_key key p = elim p.trade_aggregator [
    | none ↦ (p, ok tt)
    | some a ↦
        let (a', r) = Aggregator.flush a key in
        let next = record p { trade_aggregator = some a' } in
        elim r [
          | err e ↦ (next, err (aggregate_trade e))
          | ok samples ↦ handle_samples samples next
        ]
  ]

  unfoldable pub flush_significant_trade_key : Text → TradePipeline D → Handled D
  flush_significant_trade_key key p = elim p.significant_aggregator [
    | none ↦ (p, ok tt)
    | some a ↦
        let (a', r) = Significant.flush a key in
        let next = record p { significant_aggregator = some a' } in
        elim r [
          | err e ↦ (next, err (aggregate_significant_trade e))
          | ok ticks ↦ publish_significant_trades config ticks next
        ]
  ]

  unfoldable pub flush_each :
      (Text → TradePipeline D → Handled D) → List Text → TradePipeline D → Handled D
  flush_each f [] p = (p, ok tt)
  flush_each f (key ∷ keys) p = and_then (f key p) (flush_each f keys)

module _ {D : Type 0} where
  -- the keys with trades, before they are sorted
  unfoldable pub keys_with_trades : Dict Text (List (TradeEvent D)) → List Text
  keys_with_trades [] = []
  keys_with_trades ((key, l) ∷ m) =
      let rest = keys_with_trades m in elim l [ [] ↦ rest | _ ∷ _ ↦ key ∷ rest ]

  -- `pendingKeys`
  unfoldable pub pending_keys : Dict Text (List (TradeEvent D)) → List Text
  pending_keys m = stable_sort text_lt (keys_with_trades m)

  unfoldable pub has_pending_trades_before : Dict Text (List (TradeEvent D)) → Text → Time → Bool
  has_pending_trades_before trades key boundary = elim (pending key trades) [
    | [] ↦ false
    | first ∷ rest ↦ ltb (last_of first rest).timestamp boundary
  ]

module _ {D : Type 0} ⦃ops : DecimalOps D⦄ (config : PipelineConfig D) where
  unfoldable pub flush_aggregated_trades : TradePipeline D → Handled D
  flush_aggregated_trades p = elim p.trade_aggregator [
    | none ↦ (p, ok tt)
    | some a ↦ flush_each config (flush_aggregated_trade_key config) (pending_keys a.trades) p
  ]

  unfoldable pub flush_significant_trades : TradePipeline D → Handled D
  flush_significant_trades p = elim p.significant_aggregator [
    | none ↦ (p, ok tt)
    | some a ↦ flush_each config (flush_significant_trade_key config) (pending_keys a.trades) p
  ]

  unfoldable pub flush_pipeline : TradePipeline D → Handled D
  flush_pipeline p = and_then (flush_aggregated_trades p) flush_significant_trades

  unfoldable pub flush_aggregated_trade_key_before : Text → Time → TradePipeline D → Handled D
  flush_aggregated_trade_key_before key boundary p = elim p.trade_aggregator [
    | none ↦ (p, ok tt)
    | some a ↦
        if has_pending_trades_before a.trades key boundary
        then flush_aggregated_trade_key config key p
        else (p, ok tt)
  ]

  unfoldable pub flush_significant_trade_key_before : Text → Time → TradePipeline D → Handled D
  flush_significant_trade_key_before key boundary p = elim p.significant_aggregator [
    | none ↦ (p, ok tt)
    | some a ↦
        if has_pending_trades_before a.trades key boundary
        then flush_significant_trade_key config key p
        else (p, ok tt)
  ]

  -- `FlushBefore`
  unfoldable pub flush_pipeline_before : Text → Text → Time → TradePipeline D → Handled D
  flush_pipeline_before exchange symbol timestamp p =
      let boundary = truncate minute timestamp in
      let key = exchange_symbol_key exchange symbol in
      and_then (flush_aggregated_trade_key_before key boundary p)
        (flush_significant_trade_key_before key boundary)

unfoldable pub is_valid_stream : Stream → Bool
is_valid_stream stream =
    text_eq stream raw_trades
    || text_eq stream aggregated_trades
    || text_eq stream significant_trades

-- the first stream that is unknown
unfoldable pub validate_streams : List Stream → Option Stream
validate_streams [] = none
validate_streams (stream ∷ streams) =
    let rest = validate_streams streams in if is_valid_stream stream then rest else some stream
