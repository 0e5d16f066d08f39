-- ===== src/Examples/Buckets.antt =====
-- websocket_data_merge.go and websocket_data_buffer.go.
use go_quant_tick.Common.{
  ℕ, ◌≡◌, Bool, refl, true, false, List, [], ◌∷◌, ◌++◌, ok, err, All, some, none, Everywhere,
  Everywhere-empty, bytes, inl, inr, Option, Text, arith, text_eq, text_Eq, parse_int, lookup,
  Sorted, if◌then◌else◌, insert,
}
use go_quant_tick.Trade.{TradeEvent}
use go_quant_tick.Significant.{SignificantTrade}
use go_quant_tick.Stream.{Stream, raw_trades, aggregated_trades, WebSocketDataBucket}
use go_quant_tick.Merge.Less.{web_socket_data_trade_less, HasNumber}
use go_quant_tick.Merge.Less.Weak.{IsSortable, web_socket_data_trade_less_trans}
use go_quant_tick.Merge.Insert.{
  insert_web_socket_data_trade, canonical_web_socket_data_trades, merge_web_socket_data_trades,
}
use go_quant_tick.Merge.Insert.Uids.{Knows}
use go_quant_tick.Merge.Insert.Batch.{
  insert_each, insert_web_socket_data_trade-canonical, insert_each-merge,
}
use go_quant_tick.Merge.Insert.Invariant.{
  IsCanonical, IsIndexed, empty-IsCanonical, insert_web_socket_data_trade-IsIndexed,
}
use go_quant_tick.Merge.Insert.Kept.{canonical-IsCanonical}
use go_quant_tick.Merge.Filter.{volume_filter_aggregated_trades, derive_web_socket_data_bucket}
use go_quant_tick.Merge.Filter.Cuts.{
  Cuts, volume_in, volume_filter_aggregated_trades-Cuts, volume_filter_aggregated_trades-volume_in,
}
use go_quant_tick.Merge.Filter.Derived.{IsDerivedFrom, derive_web_socket_data_bucket-IsDerivedFrom}
use go_quant_tick.Aggregator.Measure.{sum_of, volumes}
use go_quant_tick.Store.{BucketKey, BucketKey_Eq, Faults, StoreError, Table}
use go_quant_tick.Store
use go_quant_tick.Buffer
use go_quant_tick.Buffer.{
  WebSocketDataBuffer, add_trade_to, flush_during, flush_included, new_bucket,
}
use go_quant_tick.Buffer.Appended.{Flushed, flush_during_lem}
use go_quant_tick.Buffer.Valid.{IsFiled, add_trade_to-IsFiled}
use go_quant_tick.Buffer.Restore.{trades_at}
use go_quant_tick.Buffer.Flush.{flush_included_failed, flush_included-IsFiled}
use go_quant_tick.Examples.Decimals.{nat_decimals, nat_decimal_laws, buy_1, buy_2, sell_3}

binance : Text
binance = bytes "binance"

sortable :
    (n : ℕ) (t : TradeEvent ℕ)
    → parse_int t.uid ≡ some n
    → t.nanoseconds ≡ 0
    → IsSortable (bytes "binance") t
sortable n t h z = (inr (n, h), ground arith)

buy_1-IsSortable : IsSortable (bytes "binance") buy_1
unfolding parse_int
buy_1-IsSortable = sortable _ buy_1 refl refl

buy_2-IsSortable : IsSortable (bytes "binance") buy_2
unfolding parse_int
buy_2-IsSortable = sortable _ buy_2 refl refl

sell_3-IsSortable : IsSortable (bytes "binance") sell_3
unfolding parse_int
sell_3-IsSortable = sortable _ sell_3 refl refl

in_order_12 : web_socket_data_trade_less (bytes "binance") raw_trades buy_1 buy_2 ≡ true
unfolding web_socket_data_trade_less go_quant_tick.Merge.Less.has_opaque_uids
    go_quant_tick.Merge.Less.trade_uid_less parse_int
in_order_12 = refl

in_order_23 : web_socket_data_trade_less (bytes "binance") raw_trades buy_2 sell_3 ≡ true
unfolding web_socket_data_trade_less
in_order_23 = refl

web_socket_data_trade_less_trans_example :
    (web_socket_data_trade_less (bytes "binance") raw_trades buy_1 sell_3 ≡ true)
    × (web_socket_data_trade_less (bytes "binance") raw_trades sell_3 buy_1 ≡ false)
web_socket_data_trade_less_trans_example =
    web_socket_data_trade_less_trans (bytes "binance") raw_trades buy_1 buy_2 sell_3
      buy_1-IsSortable buy_2-IsSortable sell_3-IsSortable in_order_12 in_order_23

abbrev canonical : List (TradeEvent ℕ) → List (TradeEvent ℕ)
canonical ts = canonical_web_socket_data_trades (bytes "binance") raw_trades ts

insert_web_socket_data_trade-canonical_example :
    let r =
      insert_web_socket_data_trade
        (bytes "binance")
        raw_trades
        (canonical (sell_3 ∷ buy_1 ∷ []))
        none
        buy_2 in
    (r.0 ≡ canonical (sell_3 ∷ buy_1 ∷ buy_2 ∷ []))
    × Knows r.1 (canonical (sell_3 ∷ buy_1 ∷ buy_2 ∷ []))
insert_web_socket_data_trade-canonical_example =
    insert_web_socket_data_trade-canonical (bytes "binance") raw_trades (sell_3 ∷ buy_1 ∷ []) buy_2
      none refl (sell_3-IsSortable, (buy_1-IsSortable, tt)) buy_2-IsSortable tt

insert_each-merge_example :
    (insert_each (bytes "binance") raw_trades (canonical (sell_3 ∷ [])) none (buy_2 ∷ buy_1 ∷ [])).0
    ≡ merge_web_socket_data_trades (bytes "binance") raw_trades (sell_3 ∷ []) (buy_2 ∷ buy_1 ∷ [])
insert_each-merge_example =
    insert_each-merge (bytes "binance") raw_trades (sell_3 ∷ []) (buy_2 ∷ buy_1 ∷ []) refl
      (sell_3-IsSortable, tt) (buy_2-IsSortable, (buy_1-IsSortable, tt))

canonical-IsCanonical_example : IsCanonical (bytes "binance") aggregated_trades (
    canonical_web_socket_data_trades
      (bytes "binance")
      aggregated_trades
      (sell_3 ∷ buy_1 ∷ sell_3 ∷ []))
canonical-IsCanonical_example =
    canonical-IsCanonical (bytes "binance") aggregated_trades (sell_3 ∷ buy_1 ∷ sell_3 ∷ [])
      (sell_3-IsSortable, (buy_1-IsSortable, (sell_3-IsSortable, tt)))

insert_web_socket_data_trade-IsIndexed_example :
    IsIndexed
      (bytes "binance")
      aggregated_trades
      (insert_web_socket_data_trade (bytes "binance") aggregated_trades [] none buy_1)
insert_web_socket_data_trade-IsIndexed_example =
    insert_web_socket_data_trade-IsIndexed (bytes "binance") aggregated_trades [] none buy_1
      (empty-IsCanonical (bytes "binance") aggregated_trades) tt buy_1-IsSortable

volume_filter_aggregated_trades-Cuts_example :
    (out : List (SignificantTrade ℕ)) × (volume_filter_aggregated_trades
        (buy_1 ∷ sell_3 ∷ buy_2 ∷ [])
        500
      ≡ ok out)
    × Cuts 500 (buy_1 ∷ sell_3 ∷ buy_2 ∷ []) out
volume_filter_aggregated_trades-Cuts_example =
    volume_filter_aggregated_trades-Cuts (buy_1 ∷ sell_3 ∷ buy_2 ∷ []) 500

volume_filter_aggregated_trades-volume_in_example :
    (out : List (SignificantTrade ℕ)) × (volume_filter_aggregated_trades
        (buy_1 ∷ sell_3 ∷ buy_2 ∷ [])
        500
      ≡ ok out)
    × (volume_in out ≡ sum_of volumes (buy_1 ∷ sell_3 ∷ buy_2 ∷ []))
volume_filter_aggregated_trades-volume_in_example =
    volume_filter_aggregated_trades-volume_in (buy_1 ∷ sell_3 ∷ buy_2 ∷ []) 500

abbrev key : BucketKey
key = record {
  exchange = bytes "binance";
  symbol = bytes "BTCUSDT";
  significant_trade_filter = 500;
  timestamp = 0;
}

-- A bucket of Bitfinex, whose trades are derived from its raw trades.
abbrev bucket : WebSocketDataBucket ℕ
unfolding new_bucket
bucket = record (new_bucket (record key { exchange = bytes "bitfinex" })) {
  raw_trades = sell_3 ∷ buy_1 ∷ [];
  aggregated_trades = sell_3 ∷ buy_2 ∷ buy_1 ∷ [];
}

derive_web_socket_data_bucket-IsDerivedFrom_example :
    (b : WebSocketDataBucket ℕ) × (derive_web_socket_data_bucket bucket ≡ ok b)
    × IsDerivedFrom bucket b
derive_web_socket_data_bucket-IsDerivedFrom_example =
    derive_web_socket_data_bucket-IsDerivedFrom bucket

abbrev empty_buffer : WebSocketDataBuffer ℕ
empty_buffer = record {
  buckets = [];
  config = record { default_significant_trade_filter = 500; significant_thresholds = [] };
}

empty_buffer-IsFiled : Everywhere IsFiled empty_buffer.buckets
empty_buffer-IsFiled = Everywhere-empty IsFiled

abbrev filled_buffer : WebSocketDataBuffer ℕ
unfolding add_trade_to
filled_buffer = (add_trade_to empty_buffer raw_trades buy_1).0

filled_buffer-IsFiled : Everywhere IsFiled filled_buffer.buckets
unfolding filled_buffer add_trade_to
filled_buffer-IsFiled =
    add_trade_to-IsFiled empty_buffer raw_trades buy_1 buy_1-IsSortable empty_buffer-IsFiled

add_trade_to-IsFiled_example : Everywhere IsFiled filled_buffer.buckets
unfolding filled_buffer add_trade_to
add_trade_to-IsFiled_example =
    add_trade_to-IsFiled empty_buffer raw_trades buy_1 buy_1-IsSortable empty_buffer-IsFiled

abbrev no_faults : Faults
no_faults = record {
  begin = false;
  select = λ k. false;
  upsert = λ k. false;
  delete_old = false;
  commit = false;
}

abbrev all_keys : BucketKey → Bool
all_keys k = true

failing :
    (flush_included all_keys (record no_faults { begin = true }) 0 (filled_buffer, [])).1
    ≡ err StoreError.begin_transaction
unfolding flush_included Buffer.detach Buffer.detach_keys Buffer.sort_web_socket_data_bucket_keys
    go_quant_tick.Common.stable_sort Buffer.included_keys filled_buffer
    Buffer.significant_trade_filter Buffer.decimal_to_int64 lookup go_quant_tick.Common.int_lt
    Buffer.add_to_bucket insert go_quant_tick.Common.insert_by Store.upsert_buckets
    Store.transaction Buffer.flush_during Buffer.add_each
failing = refl

flush_included_failed_example :
    (trades_at key
        (flush_included all_keys
          (record no_faults { begin = true })
          0
          (filled_buffer, [])).0.0.buckets
      ≡ trades_at key filled_buffer.buckets)
    × ((flush_included all_keys (record no_faults { begin = true }) 0 (filled_buffer, [])).0.1 ≡ [])
flush_included_failed_example =
    flush_included_failed all_keys (record no_faults { begin = true }) 0 filled_buffer []
      StoreError.begin_transaction key filled_buffer-IsFiled failing

flush_included-IsFiled_example :
    Everywhere IsFiled (flush_included all_keys no_faults 0 (filled_buffer, [])).0.0.buckets
flush_included-IsFiled_example =
    flush_included-IsFiled all_keys no_faults 0 filled_buffer [] filled_buffer-IsFiled

-- a trade that comes while the flush waits for the store
abbrev late_append : List (Stream × TradeEvent ℕ)
late_append = (raw_trades, buy_2) ∷ []

flush_during_lem_example :
    Flushed late_append all_keys no_faults 0 filled_buffer []
      (flush_during late_append all_keys no_faults 0 (filled_buffer, []))
flush_during_lem_example =
    flush_during_lem late_append all_keys no_faults 0 filled_buffer [] filled_buffer-IsFiled
      (buy_2-IsSortable, tt)

-- the store takes the bucket
counted : (flush_during late_append all_keys no_faults 0 (filled_buffer, [])).1 ≡ ok 1
unfolding flush_during Buffer.detach Buffer.detach_keys Buffer.sort_web_socket_data_bucket_keys
    go_quant_tick.Common.stable_sort Buffer.included_keys filled_buffer
    Buffer.significant_trade_filter Buffer.decimal_to_int64 lookup go_quant_tick.Common.int_lt
    Buffer.add_to_bucket insert go_quant_tick.Common.insert_by Store.upsert_buckets
    Store.transaction Store.upsert_all Store.upsert_bucket_in
    Store.merge_existing_web_socket_data_bucket derive_web_socket_data_bucket
    go_quant_tick.Merge.Filter.derive_canonical
    go_quant_tick.Merge.Filter.should_derive_bitfinex_trades_from_raw
    go_quant_tick.Merge.Filter.canonical_bucket Buffer.bucket_at Store.key_eq
    Buffer.new_web_socket_data_bucket_key Buffer.add_raw new_bucket
    go_quant_tick.Merge.Coalesce.aggregate_trade_events canonical_web_socket_data_trades
    go_quant_tick.Merge.Filter.derive_filtered_trades_from_aggregated
counted = refl

-- the store refuses the bucket, which comes back and is merged with the trade appended meanwhile
merges_late_append :
    trades_at key
      (flush_during late_append all_keys
        (record no_faults { begin = true })
        0
        (filled_buffer, [])).0.0.buckets
    ≡ (buy_1 ∷ buy_2 ∷ [], [])
unfolding flush_during Buffer.detach Buffer.detach_keys Buffer.sort_web_socket_data_bucket_keys
    go_quant_tick.Common.stable_sort Buffer.included_keys filled_buffer
    Buffer.significant_trade_filter Buffer.decimal_to_int64 lookup go_quant_tick.Common.int_lt
    Buffer.add_to_bucket insert go_quant_tick.Common.insert_by Store.upsert_buckets
    Store.transaction Buffer.bucket_at Store.key_eq Buffer.new_web_socket_data_bucket_key
    Buffer.add_raw new_bucket canonical_web_socket_data_trades trades_at Buffer.restore
    merge_web_socket_data_trades insert_web_socket_data_trade
    go_quant_tick.Merge.Insert.trade_uid_set go_quant_tick.Merge.Insert.insert_sorted
    go_quant_tick.Common.search web_socket_data_trade_less go_quant_tick.Merge.Less.has_opaque_uids
    go_quant_tick.Merge.Less.trade_uid_less parse_int Buffer.restore_bucket
    go_quant_tick.Common.delete Buffer.add_each
merges_late_append = refl
