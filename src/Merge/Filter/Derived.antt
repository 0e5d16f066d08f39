-- ===== src/Merge/Filter/Derived.antt =====
-- deriveWebSocketDataBucket of quanttick/websocket_data_merge.go on every branch.
use go_quant_tick.Common.{
  ◌≡◌, ◌≢◌, true, false, ◌&&◌, List, [], ◌∷◌, Text, text_eq, text_eq_iff, bytes, ok, refl,
  if◌then◌else◌, arith, Bool-cases, inl, inr,
}
use go_quant_tick.Trade.{DecimalOps, TradeEvent}
use go_quant_tick.Significant.{SignificantTrade}
use go_quant_tick.Stream
use go_quant_tick.Stream.{WebSocketDataBucket}
use go_quant_tick.Merge.Insert.{canonical_web_socket_data_trades}
use go_quant_tick.Merge.Coalesce.{aggregate_trade_events}
use go_quant_tick.Merge.Coalesce.Runs.{samples, aggregate_trade_events-samples}
use go_quant_tick.Merge.Filter.{
  canonical_bucket, derive_canonical, derive_filtered_trades_from_aggregated,
  derive_web_socket_data_bucket, should_derive_bitfinex_trades_from_raw,
}
use go_quant_tick.Merge.Filter.Cuts.{Cuts, volume_filter_aggregated_trades-Cuts}

module _ {D : Type 0} ⦃ops : DecimalOps D⦄ where
  derive_filtered_of :
      (b : WebSocketDataBucket D) (l : List (TradeEvent D))
      → b.aggregated_trades ≡ l
      → (filtered : List (SignificantTrade D)) × (derive_filtered_trades_from_aggregated b
          ≡ ok (record b { filtered_trades = filtered }))
        × Cuts (ops.new_from_int b.significant_trade_filter) l filtered
  unfolding derive_filtered_trades_from_aggregated
  derive_filtered_of b [] e = ([], ground arith, Cuts.done)
  derive_filtered_of b (first ∷ rest) e =
      let (filtered, made, cuts) =
        volume_filter_aggregated_trades-Cuts (first ∷ rest)
          (ops.new_from_int b.significant_trade_filter) in
      (filtered, ground (arith, made), cuts)

  -- The list that the aggregated trades are made of, for a bucket with the lists `raw` and
  -- `aggregated`: the raw trades on Bitfinex, where there are any.
  pub data Source (exchange : Text) (raw aggregated : List (TradeEvent D))
      : List (TradeEvent D) → Type 0 where
    from_raw :
        (first : TradeEvent D)
        → (rest : List (TradeEvent D)) → exchange ≡ bytes "bitfinex"
        → raw ≡ first ∷ rest
        → Source exchange raw aggregated raw
    without_raw : exchange ≡ bytes "bitfinex" → raw ≡ [] → Source exchange raw aggregated aggregated
    of_other : exchange ≢ bytes "bitfinex" → Source exchange raw aggregated aggregated

  -- `b` as it is derived from the bucket `c`.
  pub record IsDerivedFrom (c b : WebSocketDataBucket D) : Type 0 where
    pub exchange : b.exchange ≡ c.exchange
    pub api_symbol : b.api_symbol ≡ c.api_symbol
    pub significant_trade_filter : b.significant_trade_filter ≡ c.significant_trade_filter
    pub timestamp : b.timestamp ≡ c.timestamp
    pub raw_trades :
        b.raw_trades ≡ canonical_web_socket_data_trades c.exchange Stream.raw_trades c.raw_trades
    pub source : List (TradeEvent D)
    pub from_source :
        Source c.exchange
          (canonical_web_socket_data_trades c.exchange Stream.raw_trades c.raw_trades)
          (canonical_web_socket_data_trades c.exchange Stream.aggregated_trades c.aggregated_trades)
          source
    pub coalesced : aggregate_trade_events source ≡ ok b.aggregated_trades
    pub cuts :
        Cuts (ops.new_from_int c.significant_trade_filter) b.aggregated_trades b.filtered_trades

  -- the source of a bucket with canonical lists
  canonical_lists-Source :
      (c : WebSocketDataBucket D)
      → Source c.exchange c.raw_trades c.aggregated_trades
          (if should_derive_bitfinex_trades_from_raw c then c.raw_trades else c.aggregated_trades)
  unfolding should_derive_bitfinex_trades_from_raw
  canonical_lists-Source c = elim (Bool-cases (text_eq c.exchange (bytes "bitfinex"))) [
    | inr other ↦
        rw other (of_other (λ e. cc ((text_eq_iff c.exchange (bytes "bitfinex")).1 e, other)))
    | inl same ↦ rw same (
        bitfinex-Source c.exchange c.raw_trades c.aggregated_trades
          ((text_eq_iff c.exchange (bytes "bitfinex")).0 same))
  ]
    where
      bitfinex-Source :
          (exchange : Text) (raw aggregated : List (TradeEvent D))
          → exchange ≡ bytes "bitfinex"
          → Source exchange raw aggregated
              (if true && (elim raw [ [] ↦ false | _ ∷ _ ↦ true ]) then raw else aggregated)
      bitfinex-Source exchange [] aggregated e = without_raw e refl
      bitfinex-Source exchange (first ∷ rest) aggregated e = from_raw first rest e refl

  derive_canonical_lem :
      (c : WebSocketDataBucket D) (source : List (TradeEvent D))
      → (if should_derive_bitfinex_trades_from_raw c then c.raw_trades else c.aggregated_trades)
        ≡ source
      → (filtered : List (SignificantTrade D)) × (derive_canonical c
          ≡ ok (record c { aggregated_trades = samples source; filtered_trades = filtered }))
        × Cuts (ops.new_from_int c.significant_trade_filter) (samples source) filtered
  unfolding derive_canonical
  derive_canonical_lem c source e =
      let (filtered, made, cuts) =
        derive_filtered_of (record c { aggregated_trades = samples source }) (samples source)
          refl in
      (
        filtered,
        ground (
          arith,
          aggregate_trade_events-samples c.raw_trades,
          aggregate_trade_events-samples c.aggregated_trades,
          made,
          e,
        ),
        cuts,
      )

  -- The derivation does not fail. It keeps the bucket's key, and its raw trades in canonical order.
  -- The aggregated trades are made by coalescing: on Bitfinex, of the raw trades in canonical order,
  -- where there are any, and otherwise of the aggregated trades in canonical order. The filtered trades
  -- cut the result at the bucket's filter.
  pub derive_web_socket_data_bucket-IsDerivedFrom :
      (bucket : WebSocketDataBucket D)
      → (b : WebSocketDataBucket D) × (derive_web_socket_data_bucket bucket ≡ ok b)
        × IsDerivedFrom bucket b
  unfolding derive_web_socket_data_bucket canonical_bucket
  derive_web_socket_data_bucket-IsDerivedFrom bucket =
      let c = canonical_bucket bucket in
      let (filtered, made, cuts) = derive_canonical_lem c _ refl in
      (
        _,
        made,
        record {
          exchange = refl;
          api_symbol = refl;
          significant_trade_filter = refl;
          timestamp = refl;
          raw_trades = refl;
          source = _;
          from_source = canonical_lists-Source c;
          coalesced = aggregate_trade_events-samples _;
          cuts = cuts;
        },
      )
