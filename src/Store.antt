-- ===== src/Store.antt =====
-- quanttick/websocket_data_store.go: a list of buckets enters the table of the database in one
-- transaction. The database is a table of rows by key, and says which of its calls fail.
use go_quant_tick.Common.{
  ◌-◌, ◌*◌, ◌≡◌, Bool, true, ◌&&◌, none, some, List, [], ◌∷◌, Text, text_eq, text_eq_iff, nat_eq,
  ltb, ◌↔◌, if◌then◌else◌, Eq, Result, ok, err, ◌>>=◌, Word, Dict, lookup, insert, map, arith,
}
use go_quant_tick.Trade.{Time, Duration, minute, truncate, DecimalOps, TradeEvent}
use go_quant_tick.Significant.{SignificantTrade}
use go_quant_tick.Stream.{WebSocketDataBucket, raw_trades, aggregated_trades}
use go_quant_tick.Merge.Insert.{merge_web_socket_data_trades}
use go_quant_tick.Merge.Filter.{DeriveError, derive_web_socket_data_bucket}

-- `websocketDataBucketKey`, the key of the buffer's map and of the table
pub record BucketKey : Type 0 where
  pub exchange : Text
  pub symbol : Text
  pub significant_trade_filter : Word
  pub timestamp : Time

unfoldable pub key_eq : BucketKey → BucketKey → Bool
key_eq a b =
    text_eq a.exchange b.exchange
    && text_eq a.symbol b.symbol
    && nat_eq a.significant_trade_filter b.significant_trade_filter
    && nat_eq a.timestamp b.timestamp

pub key_eq_iff : (a b : BucketKey) → (key_eq a b ≡ true) ↔ (a ≡ b)
unfolding key_eq
key_eq_iff a b = ground (arith, text_eq_iff a.exchange b.exchange, text_eq_iff a.symbol b.symbol)

instance abbrev pub BucketKey_Eq : Eq BucketKey
BucketKey_Eq = record { equal = key_eq; equal_iff = key_eq_iff }

module _ {D : Type 0} where
  -- the values that a query gives for a bucket
  unfoldable pub key_of : WebSocketDataBucket D → BucketKey
  key_of bucket = record {
    exchange = bucket.exchange;
    symbol = bucket.api_symbol;
    significant_trade_filter = bucket.significant_trade_filter;
    timestamp = bucket.timestamp;
  }

-- A row's values are JSON of these lists.
pub record Row (D : Type 0) : Type 0 where
  pub raw_trades : List (TradeEvent D)
  pub aggregated_trades : List (TradeEvent D)
  pub filtered_trades : List (SignificantTrade D)

abbrev pub Table : Type 0 → Type 0
Table D = Dict BucketKey (Row D)

-- The calls of the database that fail. A row that cannot be read includes one whose JSON is bad.
pub record Faults : Type 0 where
  pub begin : Bool
  pub select : BucketKey → Bool
  pub upsert : BucketKey → Bool
  pub delete_old : Bool
  pub commit : Bool

pub data StoreError : Type 0 where
  begin_transaction : StoreError
  read_existing : BucketKey → StoreError
  derive : DeriveError → StoreError
  upsert_bucket : BucketKey → StoreError
  delete_rows : StoreError
  commit_transaction : StoreError

abbrev pub websocket_data_retention : Duration
websocket_data_retention = 60 * minute

-- `%w` of an error of the derivation
abbrev pub lift {ℓ} : {A : Type ℓ} → Result DeriveError A → Result StoreError A
lift (ok a) = ok a
lift (err e) = err (derive e)

module _ {D : Type 0} where
  -- JSON leaves `ReceivedAt` out: the zero time is read back.
  unfoldable pub stored : TradeEvent D → TradeEvent D
  stored t = record t { received_at = 0 }

  unfoldable pub row_of : WebSocketDataBucket D → Row D
  row_of bucket = record {
    raw_trades = map stored bucket.raw_trades;
    aggregated_trades = map stored bucket.aggregated_trades;
    filtered_trades = bucket.filtered_trades;
  }

  unfoldable pub merge_row : Row D → WebSocketDataBucket D → WebSocketDataBucket D
  merge_row row bucket = record bucket {
    raw_trades =
        merge_web_socket_data_trades bucket.exchange raw_trades row.raw_trades bucket.raw_trades;
    aggregated_trades =
        merge_web_socket_data_trades bucket.exchange aggregated_trades row.aggregated_trades
          bucket.aggregated_trades;
    filtered_trades = [];
  }

  unfoldable pub merge_existing_web_socket_data_bucket :
      Faults → Table D → WebSocketDataBucket D → Result StoreError (WebSocketDataBucket D)
  merge_existing_web_socket_data_bucket faults table bucket =
      if faults.select (key_of bucket)
      then err (read_existing (key_of bucket))
      else elim (lookup (key_of bucket) table) [
        | none ↦ ok bucket
        | some row ↦ ok (merge_row row bucket)
      ]

  -- the rows not before the cutoff
  unfoldable pub delete_old_web_socket_data : Time → Table D → Table D
  delete_old_web_socket_data cutoff [] = []
  delete_old_web_socket_data cutoff ((key, row) ∷ table) =
      let rest = delete_old_web_socket_data cutoff table in
      if ltb key.timestamp cutoff then rest else (key, row) ∷ rest

module _ {D : Type 0} ⦃ops : DecimalOps D⦄ where
  -- one round of the loop of `UpsertBuckets`, with the table that the transaction sees
  unfoldable pub upsert_bucket_in :
      Faults → Table D → WebSocketDataBucket D → Result StoreError (Table D)
  upsert_bucket_in faults table bucket =
      merge_existing_web_socket_data_bucket faults table bucket >>= λ merged.
      lift (derive_web_socket_data_bucket merged) >>= λ derived.
      if faults.upsert (key_of derived)
      then err (upsert_bucket (key_of derived))
      else ok (insert (key_of derived) (row_of derived) table)

  unfoldable pub upsert_all :
      Faults → Table D → List (WebSocketDataBucket D) → Result StoreError (Table D)
  upsert_all faults table [] = ok table
  upsert_all faults table (bucket ∷ buckets) =
      upsert_bucket_in faults table bucket >>= λ next. upsert_all faults next buckets

  -- the transaction from its begin to its commit, and the table that it would leave
  unfoldable pub transaction :
      Faults → Time → Table D → List (WebSocketDataBucket D) → Result StoreError (Table D)
  transaction faults now table buckets =
      if faults.begin
      then err begin_transaction
      else (upsert_all faults table buckets >>= λ written.
          if faults.delete_old
          then err delete_rows
          else if faults.commit
          then err commit_transaction
          else ok (
              delete_old_web_socket_data (truncate minute (now - websocket_data_retention))
                written))

  -- The deferred `Rollback` leaves the table as it was wherever the commit is not reached or fails.
  unfoldable pub upsert_buckets :
      Faults
      → Time
      → Table D
      → List (WebSocketDataBucket D)
      → Table D × Result StoreError (Unit {0})
  upsert_buckets faults now table [] = (table, ok tt)
  upsert_buckets faults now table (bucket ∷ buckets) =
      elim (transaction faults now table (bucket ∷ buckets)) [
        | ok written ↦ (written, ok tt)
        | err e ↦ (table, err e)
      ]
