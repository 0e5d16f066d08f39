-- ===== src/Merge/Filter.antt =====
-- What is derived of a bucket: volumeFilterAggregatedTrades, aggregateFilteredTradeSegment,
-- deriveFilteredTradesFromAggregated, shouldDeriveBitfinexTradesFromRaw and
-- deriveWebSocketDataBucket, in quanttick/websocket_data_merge.go.
pub mod Cuts
pub mod Derived
use go_quant_tick.Common.{
  ◌≡◌, Bool, true, false, ◌||◌, ◌&&◌, Option, none, some, List, [], ◌∷◌, ◌++◌, Text, text_eq, bytes,
  Word, if◌then◌else◌, Result, ok, err, ◌>>=◌, last_of,
}
use go_quant_tick.Trade.{DecimalOps, TradeEvent}
use go_quant_tick.Aggregator.{AggregateError}
use go_quant_tick.Significant.{
  SignificantTrade, Summary, no_summary, context_tick, with_significant,
}
use go_quant_tick.Significant.Segments.{summary}
use go_quant_tick.Stream.{WebSocketDataBucket, raw_trades, aggregated_trades}
use go_quant_tick.Merge.Coalesce.{aggregate_trade_events}
use go_quant_tick.Merge.Insert.{canonical_web_socket_data_trades}

-- The errors of a bucket's derivation: `fmt.Errorf` wraps the one below.
pub data DeriveError : Type 0 where
  derive_bitfinex : AggregateError → DeriveError
  coalesce : AggregateError → DeriveError
  empty_segment : DeriveError

-- `%w` of an error
abbrev pub wrap {ℓ} :
    {A : Type ℓ} → (AggregateError → DeriveError) → Result AggregateError A → Result DeriveError A
wrap f (ok a) = ok a
wrap f (err e) = err (f e)

module _ {D : Type 0} ⦃ops : DecimalOps D⦄ where
  unfoldable pub is_min_volume : D → TradeEvent D → Bool
  is_min_volume threshold trade =
      ops.is_zero threshold || ops.greater_than_or_equal trade.volume threshold

  -- The loop has the variables of that in the significant aggregator, and the result is the last
  -- trade with the totals; a trade of the minimum volume fills its own values in.
  unfoldable pub filtered_trade : TradeEvent D → List (TradeEvent D) → Bool → D → SignificantTrade D
  filtered_trade first rest is_min threshold =
      let last = last_of first rest in
      with_significant
        (context_tick last (summary (no_summary first) (first ∷ rest)) threshold false)
        (if is_min then some last else none)

  unfoldable pub aggregate_filtered_trade_segment :
      List (TradeEvent D) → Bool → D → Result DeriveError (SignificantTrade D)
  aggregate_filtered_trade_segment [] is_min threshold = err empty_segment
  aggregate_filtered_trade_segment (first ∷ rest) is_min threshold =
      ok (filtered_trade first rest is_min threshold)

  -- The loop: `segment` is trades[start : index], and the last argument is trades[index:].
  unfoldable pub filter_from :
      D → List (TradeEvent D) → List (TradeEvent D) → Result DeriveError (List (SignificantTrade D))
  filter_from threshold [] [] = ok []
  filter_from threshold (first ∷ segment) [] =
      aggregate_filtered_trade_segment (first ∷ segment) false threshold >>= λ filtered.
      ok (filtered ∷ [])
  filter_from threshold segment (trade ∷ rest) = elim (is_min_volume threshold trade) [
    | false ↦ filter_from threshold (segment ++ trade ∷ []) rest
    | true ↦ aggregate_filtered_trade_segment (segment ++ trade ∷ []) true threshold >>= λ filtered.
        filter_from threshold [] rest >>= λ more. ok (filtered ∷ more)
  ]

  unfoldable pub volume_filter_aggregated_trades :
      List (TradeEvent D) → D → Result DeriveError (List (SignificantTrade D))
  volume_filter_aggregated_trades trades threshold = filter_from threshold [] trades

  unfoldable pub derive_filtered_trades_from_aggregated :
      WebSocketDataBucket D → Result DeriveError (WebSocketDataBucket D)
  derive_filtered_trades_from_aggregated bucket = elim bucket.aggregated_trades [
    | [] ↦ ok (record bucket { filtered_trades = [] })
    | first ∷ rest ↦
        volume_filter_aggregated_trades (first ∷ rest)
          (ops.new_from_int bucket.significant_trade_filter)
        >>= λ filtered. ok (record bucket { filtered_trades = filtered })
  ]

  unfoldable pub should_derive_bitfinex_trades_from_raw : WebSocketDataBucket D → Bool
  should_derive_bitfinex_trades_from_raw bucket =
      text_eq bucket.exchange (bytes "bitfinex")
      && (elim bucket.raw_trades [ [] ↦ false | _ ∷ _ ↦ true ])

  -- the lists of the bucket in canonical order
  unfoldable pub canonical_bucket : WebSocketDataBucket D → WebSocketDataBucket D
  canonical_bucket bucket = record bucket {
    raw_trades = canonical_web_socket_data_trades bucket.exchange raw_trades bucket.raw_trades;
    aggregated_trades =
        canonical_web_socket_data_trades bucket.exchange aggregated_trades bucket.aggregated_trades;
  }

  unfoldable pub derive_canonical :
      WebSocketDataBucket D → Result DeriveError (WebSocketDataBucket D)
  derive_canonical bucket =
      (if should_derive_bitfinex_trades_from_raw bucket
        then wrap derive_bitfinex (aggregate_trade_events bucket.raw_trades)
        else wrap coalesce (aggregate_trade_events bucket.aggregated_trades))
      >>= λ aggregated.
          derive_filtered_trades_from_aggregated (record bucket { aggregated_trades = aggregated })

  unfoldable pub derive_web_socket_data_bucket :
      WebSocketDataBucket D → Result DeriveError (WebSocketDataBucket D)
  derive_web_socket_data_bucket bucket = derive_canonical (canonical_bucket bucket)
