-- ===== src/Buffer/Valid.antt =====
-- What holds of every bucket of the buffer, in quanttick/websocket_data_buffer.go.
use go_quant_tick.Common.{
  ◌≡◌, Result-cases, some, [], text_eq, text_Eq, Dict, lookup, insert, arith, refl, Bool-cases,
  Option-cases, inl, inr, All-append, Everywhere, Everywhere-insert, ok, subst,
}
use go_quant_tick.Trade.{Time, minute, truncate, DecimalOps, TradeEvent}
use go_quant_tick.Stream.{Stream, WebSocketDataBucket, raw_trades, aggregated_trades}
use go_quant_tick.Merge.Less.Weak.{IsSortable}
use go_quant_tick.Merge.Insert.{trade_uid_set, merge_web_socket_data_trades}
use go_quant_tick.Merge.Insert.Uids.{trade_uid_set-Knows}
use go_quant_tick.Merge.Insert.Batch.{Covers}
use go_quant_tick.Merge.Insert.Invariant.{
  IsCanonical, empty-IsCanonical, insert_web_socket_data_trade-IsIndexed,
}
use go_quant_tick.Merge.Insert.Kept.{canonical-IsCanonical}
use go_quant_tick.Store.{BucketKey, BucketKey_Eq}
use go_quant_tick.Buffer.{
  WebSocketDataBuffer, new_bucket, bucket_at, add_raw, add_aggregated, add_to_bucket, add_trade_to,
  restore_bucket, new_web_socket_data_bucket_key, significant_trade_filter,
}

module _ {D : Type 0} where
  -- The bucket is filed under its own key, that of a whole minute, and its lists are canonical with
  -- the sets of their UIDs beside them.
  pub record IsFiled (key : BucketKey) (b : WebSocketDataBucket D) : Type 0 where
    pub exchange : b.exchange ≡ key.exchange
    pub symbol : b.api_symbol ≡ key.symbol
    pub filter : b.significant_trade_filter ≡ key.significant_trade_filter
    pub timestamp : b.timestamp ≡ key.timestamp
    pub whole : truncate minute key.timestamp ≡ key.timestamp
    pub raw : IsCanonical key.exchange raw_trades b.raw_trades
    pub raw_uids : Covers b.raw_trade_uids b.raw_trades
    pub aggregated : IsCanonical key.exchange aggregated_trades b.aggregated_trades
    pub aggregated_uids : Covers b.aggregated_trade_uids b.aggregated_trades

  pub new_bucket-IsFiled :
      (key : BucketKey)
      → truncate minute key.timestamp ≡ key.timestamp
      → IsFiled key (new_bucket key)
  unfolding new_bucket
  new_bucket-IsFiled key w = record {
    exchange = refl;
    symbol = refl;
    filter = refl;
    timestamp = refl;
    whole = w;
    raw = empty-IsCanonical key.exchange raw_trades;
    raw_uids = tt;
    aggregated = empty-IsCanonical key.exchange aggregated_trades;
    aggregated_uids = tt;
  }

  pub bucket_at-IsFiled :
      (key : BucketKey) (m : Dict BucketKey (WebSocketDataBucket D))
      → truncate minute key.timestamp ≡ key.timestamp
      → Everywhere IsFiled m
      → IsFiled key (bucket_at key m)
  unfolding bucket_at
  bucket_at-IsFiled key m w all = elim (Option-cases (lookup key m)) [
    | inl e ↦ rw (e, bucket_at) (new_bucket-IsFiled key w)
    | inr (b, e) ↦ rw (e, bucket_at) (all.at_key key b e)
  ]

  add_raw-IsFiled :
      (key : BucketKey) (b : WebSocketDataBucket D) (t : TradeEvent D)
      → IsSortable key.exchange t
      → IsFiled key b
      → IsFiled key (add_raw b t)
  unfolding add_raw
  add_raw-IsFiled key b t p f =
      let (canonical, knows) =
        insert_web_socket_data_trade-IsIndexed key.exchange raw_trades b.raw_trades b.raw_trade_uids
          t f.raw f.raw_uids p in
      record {
        exchange = f.exchange;
        symbol = f.symbol;
        filter = f.filter;
        timestamp = f.timestamp;
        whole = f.whole;
        raw = rw f.exchange canonical;
        raw_uids = rw f.exchange knows;
        aggregated = f.aggregated;
        aggregated_uids = f.aggregated_uids;
      }

  add_aggregated-IsFiled :
      (key : BucketKey) (b : WebSocketDataBucket D) (t : TradeEvent D)
      → IsSortable key.exchange t
      → IsFiled key b
      → IsFiled key (add_aggregated b t)
  unfolding add_aggregated
  add_aggregated-IsFiled key b t p f =
      let (canonical, knows) =
        insert_web_socket_data_trade-IsIndexed key.exchange aggregated_trades b.aggregated_trades
          b.aggregated_trade_uids t f.aggregated f.aggregated_uids p in
      record {
        exchange = f.exchange;
        symbol = f.symbol;
        filter = f.filter;
        timestamp = f.timestamp;
        whole = f.whole;
        raw = f.raw;
        raw_uids = f.raw_uids;
        aggregated = rw f.exchange canonical;
        aggregated_uids = rw f.exchange knows;
      }

  add_to_bucket-IsFiled :
      (stream : Stream) (key : BucketKey) (b b' : WebSocketDataBucket D) (t : TradeEvent D)
      → IsSortable key.exchange t
      → IsFiled key b
      → add_to_bucket stream b t ≡ ok b'
      → IsFiled key b'
  unfolding add_to_bucket
  add_to_bucket-IsFiled stream key b b' t p f h = elim (Bool-cases (text_eq stream raw_trades)) [
    | inl raw ↦
        let e : add_raw b t ≡ b' = ground arith in
        subst (λ x. IsFiled key x) e (add_raw-IsFiled key b t p f)
    | inr other ↦ elim (Bool-cases (text_eq stream aggregated_trades)) [
      | inl aggregated ↦
          let e : add_aggregated b t ≡ b' = ground arith in
          subst (λ x. IsFiled key x) e (add_aggregated-IsFiled key b t p f)
      | inr neither ↦ ground arith
    ]
  ]

truncate_idem : (t : Time) → truncate minute (truncate minute t) ≡ truncate minute t
truncate_idem t = omega arith

module _ {D : Type 0} where
  -- what `restore` makes of the bucket that came back and the one that has taken its place
  unfoldable pub restored :
      BucketKey → WebSocketDataBucket D → WebSocketDataBucket D → WebSocketDataBucket D
  restored key detached current =
      let raw =
        merge_web_socket_data_trades key.exchange raw_trades detached.raw_trades
          current.raw_trades in
      let aggregated =
        merge_web_socket_data_trades key.exchange aggregated_trades detached.aggregated_trades
          current.aggregated_trades in
      record current {
        raw_trades = raw;
        aggregated_trades = aggregated;
        filtered_trades = [];
        raw_trade_uids = some (trade_uid_set raw);
        aggregated_trade_uids = some (trade_uid_set aggregated);
      }

  restored-IsFiled :
      (key : BucketKey) (detached current : WebSocketDataBucket D)
      → IsFiled key detached
      → IsFiled key current
      → IsFiled key (restored key detached current)
  unfolding restored merge_web_socket_data_trades
  restored-IsFiled key detached current d c = record {
    exchange = c.exchange;
    symbol = c.symbol;
    filter = c.filter;
    timestamp = c.timestamp;
    whole = c.whole;
    raw =
        canonical-IsCanonical key.exchange raw_trades _
          (All-append (IsSortable key.exchange) _ _ d.raw.sortable c.raw.sortable);
    raw_uids = trade_uid_set-Knows _;
    aggregated =
        canonical-IsCanonical key.exchange aggregated_trades _
          (All-append (IsSortable key.exchange) _ _ d.aggregated.sortable c.aggregated.sortable);
    aggregated_uids = trade_uid_set-Knows _;
  }

  -- the key that `restore` computes is that of the bucket
  restore_key :
      (key : BucketKey) (b : WebSocketDataBucket D)
      → IsFiled key b
      → new_web_socket_data_bucket_key b.exchange b.api_symbol b.significant_trade_filter
          b.timestamp
        ≡ key
  unfolding new_web_socket_data_bucket_key
  restore_key key b f = ground (arith, f.whole)

  pub restore_bucket_lem :
      (key : BucketKey) (b : WebSocketDataBucket D) (m : Dict BucketKey (WebSocketDataBucket D))
      → IsFiled key b
      → restore_bucket b m ≡ insert key (restored key b (bucket_at key m)) m
  unfolding restore_bucket restored
  restore_bucket_lem key b m f = rw (restore_key key b f, f.exchange) refl

  pub restore_bucket-IsFiled :
      (key : BucketKey) (b : WebSocketDataBucket D) (m : Dict BucketKey (WebSocketDataBucket D))
      → IsFiled key b
      → Everywhere IsFiled m
      → Everywhere IsFiled (restore_bucket b m)
  restore_bucket-IsFiled key b m f all = rw (restore_bucket_lem key b m f) (
      Everywhere-insert IsFiled key _ m
        (restored-IsFiled key b _ f (bucket_at-IsFiled key m f.whole all)) all)

module _ {D : Type 0} ⦃ops : DecimalOps D⦄ where
  -- addTrade of a trade that can be sorted keeps the buckets of the buffer in order where they were,
  -- whether it succeeds or fails: each under its own key, that of a whole minute, both lists sorted
  -- with at most one trade for each UID that is not empty, and the sets of UIDs right.
  pub add_trade_to-IsFiled :
      (b : WebSocketDataBuffer D) (stream : Stream) (trade : TradeEvent D)
      → IsSortable trade.exchange trade
      → Everywhere IsFiled b.buckets
      → Everywhere IsFiled (add_trade_to b stream trade).0.buckets
  unfolding add_trade_to new_web_socket_data_bucket_key
  add_trade_to-IsFiled b stream trade p all =
      elim (Result-cases (significant_trade_filter b trade.exchange trade.symbol)) [
        | inr (e, bad) ↦ rw (bad, add_trade_to) all
        | inl (filter, good) ↦
            let key =
              new_web_socket_data_bucket_key trade.exchange trade.symbol filter trade.timestamp in
            elim (Result-cases (add_to_bucket stream (bucket_at key b.buckets) trade)) [
              | inr (e, bad) ↦ rw (good, add_trade_to, bad) all
              | inl (bucket, made) ↦
                  rw (good, add_trade_to, made)
                    (Everywhere-insert IsFiled key bucket b.buckets
                      (add_to_bucket-IsFiled stream key _ bucket trade p
                        (bucket_at-IsFiled key b.buckets (truncate_idem trade.timestamp) all) made)
                      all)
            ]
      ]
