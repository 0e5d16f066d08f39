-- ===== src/Buffer.antt =====
-- quanttick/websocket_data_buffer.go and quanttick/websocket_data_publisher.go: trades wait in
-- buckets of a minute, which leave the buffer for the store and come back where it fails.
pub mod Valid
pub mod Restore
pub mod Detach
pub mod During
pub mod Batch
pub mod Flush
pub mod Appended
use go_quant_tick.Common.{
  ℕ, ◌-◌, ◌+◌, ◌^◌, ◌≡◌, Bool, true, false, ◌&&◌, not, Option, none, some, List, [], ◌∷◌, Text,
  text_eq, text_Eq, text_lt, nat_eq, ltb, int_lt, if◌then◌else◌, Result, ok, err, ◌>>=◌, Word, Dict,
  lookup, insert, delete, stable_sort, length,
}
use go_quant_tick.Trade.{Time, minute, truncate, DecimalOps, TradeEvent, exchange_symbol_key}
use go_quant_tick.Stream.{Stream, WebSocketDataBucket, UidSet, raw_trades, aggregated_trades}
use go_quant_tick.Merge.Insert.{
  insert_web_socket_data_trade, merge_web_socket_data_trades, trade_uid_set,
}
use go_quant_tick.Store.{BucketKey, BucketKey_Eq, key_of, Table, Faults, StoreError, upsert_buckets}

pub record BufferConfig (D : Type 0) : Type 0 where
  pub default_significant_trade_filter : D
  pub significant_thresholds : Dict Text D

pub record WebSocketDataBuffer (D : Type 0) : Type 0 where
  pub buckets : Dict BucketKey (WebSocketDataBucket D)
  pub config : BufferConfig D

pub data BufferError : Type 0 where
  not_an_integer : BufferError
  negative_filter : BufferError
  unsupported_stream : Stream → BufferError

module _ {D : Type 0} where
  unfoldable pub new_web_socket_data_buffer : BufferConfig D → WebSocketDataBuffer D
  new_web_socket_data_buffer config = record { buckets = []; config = config }

unfoldable pub new_web_socket_data_bucket_key : Text → Text → Word → Time → BucketKey
new_web_socket_data_bucket_key exchange symbol filter timestamp = record {
  exchange = exchange;
  symbol = symbol;
  significant_trade_filter = filter;
  timestamp = truncate minute timestamp;
}

-- the test of `sortWebSocketDataBucketKeys`
unfoldable pub bucket_key_less : BucketKey → BucketKey → Bool
bucket_key_less a b =
    if not (text_eq a.exchange b.exchange)
    then text_lt a.exchange b.exchange
    else if not (text_eq a.symbol b.symbol)
    then text_lt a.symbol b.symbol
    else if not (nat_eq a.significant_trade_filter b.significant_trade_filter)
    then int_lt a.significant_trade_filter b.significant_trade_filter
    else ltb a.timestamp b.timestamp

unfoldable pub sort_web_socket_data_bucket_keys : List BucketKey → List BucketKey
sort_web_socket_data_bucket_keys keys = stable_sort bucket_key_less keys

module _ {D : Type 0} ⦃ops : DecimalOps D⦄ where
  unfoldable pub decimal_to_int64 : D → Result BufferError Word
  decimal_to_int64 value =
      let int_part = ops.int_part value in
      if not (ops.equal value (ops.new_from_int int_part))
      then err not_an_integer
      else if int_lt int_part 0
      then err negative_filter
      else ok int_part

  unfoldable pub significant_trade_filter :
      WebSocketDataBuffer D → Text → Text → Result BufferError Word
  significant_trade_filter b exchange symbol =
      decimal_to_int64
        (elim (lookup (exchange_symbol_key exchange symbol) b.config.significant_thresholds) [
          | some threshold ↦ threshold
          | none ↦ b.config.default_significant_trade_filter
        ])

module _ {D : Type 0} where
  unfoldable pub new_bucket : BucketKey → WebSocketDataBucket D
  new_bucket key = record {
    exchange = key.exchange;
    api_symbol = key.symbol;
    significant_trade_filter = key.significant_trade_filter;
    timestamp = key.timestamp;
    raw_trades = [];
    aggregated_trades = [];
    filtered_trades = [];
    raw_trade_uids = none;
    aggregated_trade_uids = none;
  }

  -- `bucket`
  unfoldable pub bucket_at :
      BucketKey → Dict BucketKey (WebSocketDataBucket D) → WebSocketDataBucket D
  bucket_at key buckets = elim (lookup key buckets) [ some bucket ↦ bucket | none ↦ new_bucket key ]

  unfoldable pub add_raw : WebSocketDataBucket D → TradeEvent D → WebSocketDataBucket D
  add_raw bucket trade =
      let (trades, uids) =
        insert_web_socket_data_trade bucket.exchange raw_trades bucket.raw_trades
          bucket.raw_trade_uids trade in
      record bucket { raw_trades = trades; raw_trade_uids = some uids }

  unfoldable pub add_aggregated : WebSocketDataBucket D → TradeEvent D → WebSocketDataBucket D
  add_aggregated bucket trade =
      let (trades, uids) =
        insert_web_socket_data_trade bucket.exchange aggregated_trades bucket.aggregated_trades
          bucket.aggregated_trade_uids trade in
      record bucket { aggregated_trades = trades; aggregated_trade_uids = some uids }

  -- the `switch` of `addTrade`
  unfoldable pub add_to_bucket :
      Stream → WebSocketDataBucket D → TradeEvent D → Result BufferError (WebSocketDataBucket D)
  add_to_bucket stream bucket trade =
      if text_eq stream raw_trades
      then ok (add_raw bucket trade)
      else if text_eq stream aggregated_trades
      then ok (add_aggregated bucket trade)
      else err (unsupported_stream stream)

  -- the round of `restore` for one bucket
  unfoldable pub restore_bucket :
      WebSocketDataBucket D
      → Dict BucketKey (WebSocketDataBucket D)
      → Dict BucketKey (WebSocketDataBucket D)
  restore_bucket detached buckets =
      let key =
        new_web_socket_data_bucket_key detached.exchange detached.api_symbol
          detached.significant_trade_filter detached.timestamp in
      let current = bucket_at key buckets in
      let raw =
        merge_web_socket_data_trades detached.exchange raw_trades detached.raw_trades
          current.raw_trades in
      let aggregated =
        merge_web_socket_data_trades detached.exchange aggregated_trades detached.aggregated_trades
          current.aggregated_trades in
      insert key
        (record current {
          raw_trades = raw;
          aggregated_trades = aggregated;
          filtered_trades = [];
          raw_trade_uids = some (trade_uid_set raw);
          aggregated_trade_uids = some (trade_uid_set aggregated);
        })
        buckets

  unfoldable pub restore :
      List (WebSocketDataBucket D)
      → Dict BucketKey (WebSocketDataBucket D)
      → Dict BucketKey (WebSocketDataBucket D)
  restore [] buckets = buckets
  restore (detached ∷ rest) buckets = restore rest (restore_bucket detached buckets)

  -- the keys of the map for which the test holds
  unfoldable pub included_keys :
      (BucketKey → Bool) → Dict BucketKey (WebSocketDataBucket D) → List BucketKey
  included_keys include [] = []
  included_keys include ((key, bucket) ∷ buckets) =
      let rest = included_keys include buckets in if include key then key ∷ rest else rest

  -- the second loop of `detach`: the buckets of the keys, and what is left
  unfoldable pub detach_keys :
      List BucketKey
      → Dict BucketKey (WebSocketDataBucket D)
      → List (WebSocketDataBucket D) × Dict BucketKey (WebSocketDataBucket D)
  detach_keys [] buckets = ([], buckets)
  detach_keys (key ∷ keys) buckets =
      let (detached, left) = detach_keys keys (delete key buckets) in
      (bucket_at key buckets ∷ detached, left)

  unfoldable pub detach :
      (BucketKey → Bool)
      → Dict BucketKey (WebSocketDataBucket D)
      → List (WebSocketDataBucket D) × Dict BucketKey (WebSocketDataBucket D)
  detach include buckets =
      detach_keys (sort_web_socket_data_bucket_keys (included_keys include buckets)) buckets

module _ {D : Type 0} ⦃ops : DecimalOps D⦄ where
  unfoldable pub add_trade_to :
      WebSocketDataBuffer D
      → Stream
      → TradeEvent D
      → WebSocketDataBuffer D × Result BufferError (Unit {0})
  add_trade_to b stream trade = elim (significant_trade_filter b trade.exchange trade.symbol) [
    | err e ↦ (b, err e)
    | ok filter ↦
        let key =
          new_web_socket_data_bucket_key trade.exchange trade.symbol filter trade.timestamp in
        elim (add_to_bucket stream (bucket_at key b.buckets) trade) [
          | err e ↦ (b, err e)
          | ok bucket ↦ (record b { buckets = insert key bucket b.buckets }, ok tt)
        ]
  ]

  -- calls of `addTrade`, one after the other
  unfoldable pub add_each :
      WebSocketDataBuffer D → List (Stream × TradeEvent D) → WebSocketDataBuffer D
  add_each b [] = b
  add_each b ((stream, trade) ∷ appends) = add_each (add_trade_to b stream trade).0 appends

  -- `flush`, with what the database says of its calls, and the appends that take the lock of the
  -- buffer between `detach` and `restore`
  unfoldable pub flush_during :
      List (Stream × TradeEvent D)
      → (BucketKey → Bool)
      → Faults
      → Time
      → WebSocketDataBuffer D × Table D
      → (WebSocketDataBuffer D × Table D) × Result StoreError ℕ
  flush_during appends include faults now (b, table) =
      let (detached, left) = detach include b.buckets in
      let current = add_each (record b { buckets = left }) appends in
      let (table', r) = upsert_buckets faults now table detached in
      if nat_eq (length detached) 0 then ((current, table), ok 0) else elim r [
        | ok _ ↦ ((current, table'), ok (length detached))
        | err e ↦ ((record current { buckets = restore detached current.buckets }, table'), err e)
      ]

  -- a flush that no append meets
  unfoldable pub flush_included :
      (BucketKey → Bool)
      → Faults
      → Time
      → WebSocketDataBuffer D × Table D
      → (WebSocketDataBuffer D × Table D) × Result StoreError ℕ
  flush_included = flush_during []

  unfoldable pub flush_buckets :
      Faults
      → Time
      → WebSocketDataBuffer D × Table D
      → (WebSocketDataBuffer D × Table D) × Result StoreError ℕ
  flush_buckets = flush_included (λ _. true)

  unfoldable pub flush_buckets_before :
      Text
      → Text
      → Time
      → Faults
      → Time
      → WebSocketDataBuffer D × Table D
      → (WebSocketDataBuffer D × Table D) × Result StoreError ℕ
  flush_buckets_before exchange symbol timestamp =
      let boundary = truncate minute timestamp in
      flush_included (λ key.
        text_eq key.exchange exchange && text_eq key.symbol symbol && ltb key.timestamp boundary)
