-- ===== src/Buffer/During.antt =====
-- The appends that flush of quanttick/websocket_data_buffer.go meets between detach and restore.
use go_quant_tick.Common.{
  ◌≡◌, Bool, false, List, [], ◌∷◌, if◌then◌else◌, insert, delete, lookup-insert, lookup-delete,
  arith, refl, sym, Bool-cases, Result-cases, inl, inr, All, Everywhere, ◌∙◌, ap, ◌==◌, eq_iff, ok,
  err, Result, Word, subst,
}
use go_quant_tick.Trade.{DecimalOps, TradeEvent}
use go_quant_tick.Stream.{Stream, WebSocketDataBucket}
use go_quant_tick.Store.{BucketKey, BucketKey_Eq}
use go_quant_tick.Merge.Less.Weak.{IsSortable}
use go_quant_tick.Buffer.{
  WebSocketDataBuffer, BufferError, detach_keys, detach, new_bucket, bucket_at, add_to_bucket,
  add_trade_to, add_each, significant_trade_filter, new_web_socket_data_bucket_key,
}
use go_quant_tick.Buffer.Valid.{IsFiled, add_trade_to-IsFiled}
use go_quant_tick.Buffer.Restore.{mem}
use go_quant_tick.Buffer.Detach.{Buckets, keys_of, is_filed, mem-keys_of}

module _ {D : Type 0} where
  bucket_at-insert :
      (j k : BucketKey) (b : WebSocketDataBucket D) (m : Buckets D)
      → bucket_at j (insert k b m) ≡ (if k == j then b else bucket_at j m)
  unfolding bucket_at
  bucket_at-insert j k b m = elim (Bool-cases (k == j)) [
    | inl e ↦ ground (arith, lookup-insert k j b m)
    | inr e ↦ ground (arith, lookup-insert k j b m)
  ]

  bucket_at-delete :
      (j k : BucketKey) (m : Buckets D)
      → bucket_at j (delete k m) ≡ (if k == j then new_bucket j else bucket_at j m)
  unfolding bucket_at
  bucket_at-delete j k m = elim (Bool-cases (k == j)) [
    | inl e ↦ ground (arith, lookup-delete k j m)
    | inr e ↦ ground (arith, lookup-delete k j m)
  ]

  bucket_at-detach_keys :
      (j : BucketKey) (ks : List BucketKey) (m : Buckets D)
      → bucket_at j (detach_keys ks m).1 ≡ (if mem j ks then new_bucket j else bucket_at j m)
  unfolding detach_keys
  bucket_at-detach_keys j [] m = refl
  bucket_at-detach_keys j (k ∷ ks) m =
      bucket_at-detach_keys j ks (delete k m) ∙ elim (Bool-cases (k == j)) [
        | inl same ↦ elim (Bool-cases (mem j ks)) [
          | inl h ↦ rw (h, same) refl
          | inr h ↦ rw (h, same) (bucket_at-delete j k m ∙ rw same refl)
        ]
        | inr other ↦ elim (Bool-cases (mem j ks)) [
          | inl h ↦ rw (h, other) refl
          | inr h ↦ rw (h, other) (bucket_at-delete j k m ∙ rw other refl)
        ]
      ]

  bucket_at_missing :
      (j : BucketKey) (m : Buckets D) → is_filed j m ≡ false → bucket_at j m ≡ new_bucket j
  unfolding bucket_at is_filed
  bucket_at_missing j m h = ground arith

  -- Detaching leaves a new bucket under the included keys, and the others as they were.
  pub bucket_at-detach :
      (include : BucketKey → Bool) (j : BucketKey) (m : Buckets D)
      → bucket_at j (detach include m).1 ≡ (if include j then new_bucket j else bucket_at j m)
  unfolding detach keys_of
  bucket_at-detach include j m = ground (
    arith,
    bucket_at-detach_keys j (keys_of include m) m,
    mem-keys_of include j m,
    bucket_at_missing j m,
  )

  -- Two buffers with the same bucket under a key.
  pub record Agree (j : BucketKey) (b c : WebSocketDataBuffer D) : Type 0 where
    pub config : b.config ≡ c.config
    pub bucket : bucket_at j b.buckets ≡ bucket_at j c.buckets

  -- what `addTrade` does with the result of its switch
  filed_with : BucketKey → Result BufferError (WebSocketDataBucket D) → Buckets D → Buckets D
  filed_with key (err e) m = m
  filed_with key (ok bucket) m = insert key bucket m

  filed_with_other :
      (j key : BucketKey) (r : Result BufferError (WebSocketDataBucket D)) (m : Buckets D)
      → key == j ≡ false
      → bucket_at j (filed_with key r m) ≡ bucket_at j m
  unfolding filed_with
  filed_with_other j key (err e) m other = refl
  filed_with_other j key (ok bucket) m other = bucket_at-insert j key bucket m ∙ rw other refl

  filed_with_agree :
      (j key : BucketKey) (r : Result BufferError (WebSocketDataBucket D)) (m m' : Buckets D)
      → bucket_at j m ≡ bucket_at j m'
      → bucket_at j (filed_with key r m) ≡ bucket_at j (filed_with key r m')
  unfolding filed_with
  filed_with_agree j key (err e) m m' h = h
  filed_with_agree j key (ok bucket) m m' h =
      bucket_at-insert j key bucket m
      ∙ elim (Bool-cases (key == j)) [ inl same ↦ rw same refl | inr other ↦ rw other h ]
      ∙ sym (bucket_at-insert j key bucket m')

  filed_with_local :
      (j key : BucketKey) (f : WebSocketDataBucket D → Result BufferError (WebSocketDataBucket D))
      (m m' : Buckets D)
      → bucket_at j m ≡ bucket_at j m'
      → bucket_at j (filed_with key (f (bucket_at key m)) m)
        ≡ bucket_at j (filed_with key (f (bucket_at key m')) m')
  filed_with_local j key f m m' h = elim (Bool-cases (key == j)) [
    | inl same ↦
        let same_key : j ≡ key = sym ((eq_iff key j).0 same) in
        let at_key : bucket_at key m ≡ bucket_at key m' =
          subst (λ k. bucket_at k m ≡ bucket_at k m') same_key h in
        ap (λ b. bucket_at j (filed_with key (f b) m)) at_key
        ∙ filed_with_agree j key (f (bucket_at key m')) m m' h
    | inr other ↦
        filed_with_other j key (f (bucket_at key m)) m other
        ∙ h
        ∙ sym (filed_with_other j key (f (bucket_at key m')) m' other)
  ]

module _ {D : Type 0} ⦃ops : DecimalOps D⦄ where
  -- the buckets after addTrade, for the filter that it computes
  add_trade_with : Stream → TradeEvent D → Result BufferError Word → Buckets D → Buckets D
  add_trade_with stream trade (err e) m = m
  add_trade_with stream trade (ok filter) m =
      let key = new_web_socket_data_bucket_key trade.exchange trade.symbol filter trade.timestamp in
      filed_with key (add_to_bucket stream (bucket_at key m) trade) m

  add_trade_to_lem :
      (b : WebSocketDataBuffer D) (stream : Stream) (trade : TradeEvent D)
      → (add_trade_to b stream trade).0 ≡ record b {
        buckets =
            add_trade_with stream trade
              (significant_trade_filter b trade.exchange trade.symbol)
              b.buckets;
      }
  unfolding add_trade_to add_trade_with filed_with
  add_trade_to_lem b stream trade =
      elim (Result-cases (significant_trade_filter b trade.exchange trade.symbol)) [
        | inr (e, bad) ↦ rw (bad, add_trade_to) refl
        | inl (filter, good) ↦
            let key =
              new_web_socket_data_bucket_key trade.exchange trade.symbol filter trade.timestamp in
            elim (Result-cases (add_to_bucket stream (bucket_at key b.buckets) trade)) [
              | inr (e, bad) ↦ rw (good, add_trade_to, bad) refl
              | inl (bucket, made) ↦ rw (good, add_trade_to, made) refl
            ]
      ]

  add_trade_with_local :
      (j : BucketKey) (stream : Stream) (trade : TradeEvent D) (r : Result BufferError Word)
      (m m' : Buckets D)
      → bucket_at j m ≡ bucket_at j m'
      → bucket_at j (add_trade_with stream trade r m)
        ≡ bucket_at j (add_trade_with stream trade r m')
  unfolding add_trade_with
  add_trade_with_local j stream trade (err e) m m' h = h
  add_trade_with_local j stream trade (ok filter) m m' h =
      filed_with_local j
        (new_web_socket_data_bucket_key trade.exchange trade.symbol filter trade.timestamp)
        (λ b. add_to_bucket stream b trade) m m' h

  significant_trade_filter_config :
      (trade : TradeEvent D) (b c : WebSocketDataBuffer D)
      → b.config ≡ c.config
      → significant_trade_filter b trade.exchange trade.symbol
        ≡ significant_trade_filter c trade.exchange trade.symbol
  unfolding significant_trade_filter
  significant_trade_filter_config trade b c = ap (λ config.
      significant_trade_filter (record { buckets = []; config = config }) trade.exchange
        trade.symbol)

  add_trade_to-Agree :
      (j : BucketKey) (stream : Stream) (trade : TradeEvent D) (b c : WebSocketDataBuffer D)
      → Agree j b c
      → Agree j (add_trade_to b stream trade).0 (add_trade_to c stream trade).0
  add_trade_to-Agree j stream trade b c a =
      rw (add_trade_to_lem b stream trade, add_trade_to_lem c stream trade)
        (record {
          config = a.config;
          bucket =
              add_trade_with_local j stream trade
                (significant_trade_filter b trade.exchange trade.symbol) b.buckets c.buckets
                a.bucket
              ∙ ap (λ r. bucket_at j (add_trade_with stream trade r c.buckets))
                  (significant_trade_filter_config trade b c a.config);
        })

  -- What appends do under a key depends on the bucket that is there.
  pub add_each-Agree :
      (j : BucketKey) (appends : List (Stream × TradeEvent D)) (b c : WebSocketDataBuffer D)
      → Agree j b c
      → Agree j (add_each b appends) (add_each c appends)
  unfolding add_each
  add_each-Agree j [] b c a = a
  add_each-Agree j ((stream, trade) ∷ appends) b c a =
      add_each-Agree j appends (add_trade_to b stream trade).0 (add_trade_to c stream trade).0
        (add_trade_to-Agree j stream trade b c a)

  pub add_each-IsFiled :
      (appends : List (Stream × TradeEvent D)) (b : WebSocketDataBuffer D)
      → All (λ append. IsSortable append.1.exchange append.1) appends
      → Everywhere IsFiled b.buckets
      → Everywhere IsFiled (add_each b appends).buckets
  unfolding add_each
  add_each-IsFiled [] b p v = v
  add_each-IsFiled ((stream, trade) ∷ appends) b p v =
      add_each-IsFiled appends (add_trade_to b stream trade).0 p.1
        (add_trade_to-IsFiled b stream trade p.0 v)
