-- ===== src/Buffer/Appended.antt =====
-- A flush of quanttick/websocket_data_buffer.go that appends meet between detach and what follows
-- the answer of the store.
use go_quant_tick.Common.{
  ℕ, ◌≡◌, Bool, Result, false, List, [], ◌∷◌, if◌then◌else◌, arith, refl, Bool-cases, Result-cases,
  inl, inr, Everywhere, ok, err, length, nat_eq, ap, ◌&&◌, All, lookup, true, ◌∙◌,
}
use go_quant_tick.Buffer.Flush.{upsert_buckets_failed}
use go_quant_tick.Trade.{Time, DecimalOps, TradeEvent}
use go_quant_tick.Merge.Less.Weak.{IsSortable}
use go_quant_tick.Stream.{Stream, WebSocketDataBucket}
use go_quant_tick.Store.{BucketKey, BucketKey_Eq, Table, Faults, StoreError, upsert_buckets}
use go_quant_tick.Buffer.{
  WebSocketDataBuffer, new_web_socket_data_buffer, bucket_at, add_each, restore, detach,
  flush_during,
}
use go_quant_tick.Buffer.Valid.{IsFiled}
use go_quant_tick.Buffer.Restore.{trades_at, merged, lists_of}
use go_quant_tick.Buffer.Batch.{IsBatch, detach-IsBatch}
use go_quant_tick.Buffer.During.{Agree, bucket_at-detach, add_each-Agree, add_each-IsFiled}
use go_quant_tick.Buffer.Detach.{
  Buckets, is_filed, keys_of, trades_at-restore-detach-merged, detach_keys-IsFiled,
}

module _ {D : Type 0} ⦃ops : DecimalOps D⦄ (appends : List (Stream × TradeEvent D))
    (include : BucketKey → Bool) (faults : Faults) (now : Time) (b : WebSocketDataBuffer D)
    (table : Table D) where
  -- what the appends would make of the buffer with no bucket under a key that is included
  abbrev pub appended : BucketKey → Buckets D
  appended j =
      (add_each (if include j then new_web_socket_data_buffer b.config else b) appends).buckets

  -- The store has written the buckets of the included keys, and the buffer has what was appended.
  pub record Stored (n : ℕ) (b' : WebSocketDataBuffer D) (table' : Table D) : Type 0 where
    pub batch : List (WebSocketDataBucket D)
    pub of_included : IsBatch include b.buckets batch
    pub count : n ≡ length batch
    pub written : upsert_buckets faults now table batch ≡ (table', ok tt)
    pub left : (j : BucketKey) → bucket_at j b'.buckets ≡ bucket_at j (appended j)

  -- The store has refused the buckets of the included keys, which are merged with what was appended.
  pub record PutBack (e : StoreError) (b' : WebSocketDataBuffer D) (table' : Table D) : Type 0 where
    pub batch : List (WebSocketDataBucket D)
    pub of_included : IsBatch include b.buckets batch
    pub refused : (upsert_buckets faults now table batch).1 ≡ err e
    pub unchanged : table' ≡ table
    pub trades :
        (j : BucketKey)
        → trades_at j b'.buckets ≡ (
            if include j && is_filed j b.buckets
            then merged j (trades_at j b.buckets) (trades_at j (appended j))
            else trades_at j (appended j))

  -- The store takes the buckets or refuses them.
  pub data Flushed : (WebSocketDataBuffer D × Table D) × Result StoreError ℕ → Type 0 where
    taken :
        {b' : WebSocketDataBuffer D} {table' : Table D} {n : ℕ}
        → Stored n b' table'
        → Flushed ((b', table'), ok n)
    refused :
        {b' : WebSocketDataBuffer D} {table' : Table D} {e : StoreError}
        → PutBack e b' table'
        → Flushed ((b', table'), err e)

  current : WebSocketDataBuffer D
  current = add_each (record b { buckets = (detach include b.buckets).1 }) appends

  abbrev batch : List (WebSocketDataBucket D)
  batch = (detach include b.buckets).0

  flush_none :
      nat_eq (length batch) 0 ≡ true
      → flush_during appends include faults now (b, table) ≡ ((current, table), ok 0)
  unfolding flush_during current
  flush_none h = rw h refl

  flush_taken :
      {u : Unit {0}}
      → nat_eq (length batch) 0 ≡ false
      → (upsert_buckets faults now table batch).1 ≡ ok u
      → flush_during appends include faults now (b, table)
        ≡ ((current, (upsert_buckets faults now table batch).0), ok (length batch))
  unfolding flush_during current
  flush_taken h k = rw (h, k) refl

  flush_refused :
      nat_eq (length batch) 0 ≡ false
      → (e : StoreError) → (upsert_buckets faults now table batch).1 ≡ err e
      → flush_during appends include faults now (b, table) ≡ (
        (
          record current { buckets = restore batch current.buckets },
          (upsert_buckets faults now table batch).0,
        ),
        err e,
      )
  unfolding flush_during current
  flush_refused h e k = rw (h, k) refl

  detach-IsFiled : Everywhere IsFiled b.buckets → Everywhere IsFiled (detach include b.buckets).1
  unfolding detach keys_of
  detach-IsFiled v = detach_keys-IsFiled (keys_of include b.buckets) b.buckets v

  detached-Agree :
      (j : BucketKey)
      → Agree j
          (record b { buckets = (detach include b.buckets).1 })
          (if include j then new_web_socket_data_buffer b.config else b)
  unfolding new_web_socket_data_buffer bucket_at lookup
  detached-Agree j = elim (Bool-cases (include j)) [
    | inl yes_j ↦
        rw yes_j
          (record { config = refl; bucket = bucket_at-detach include j b.buckets ∙ rw yes_j refl })
    | inr no_j ↦
        rw no_j
          (record { config = refl; bucket = bucket_at-detach include j b.buckets ∙ rw no_j refl })
  ]

  bucket_at-current : (j : BucketKey) → bucket_at j current.buckets ≡ bucket_at j (appended j)
  unfolding current
  bucket_at-current j = (add_each-Agree j appends _ _ (detached-Agree j)).bucket

  trades_at-current : (j : BucketKey) → trades_at j current.buckets ≡ trades_at j (appended j)
  unfolding trades_at
  trades_at-current j = ap lists_of (bucket_at-current j)

  upsert_none :
      (batch : List (WebSocketDataBucket D))
      → nat_eq (length batch) 0 ≡ true
      → upsert_buckets faults now table batch ≡ (table, ok tt)
  unfolding upsert_buckets
  upsert_none [] h = refl
  upsert_none (first ∷ batch) h = ground arith

  -- A flush of a buffer whose buckets are in order, during which any trades are appended that can be
  -- sorted: where the store takes the buckets of the included keys, and of no others, the flush counts
  -- them, and under an included key the buffer has what the appends make of no bucket, and elsewhere
  -- what they make of the bucket that was there. Where the store refuses them, the table is as it was,
  -- and the trades of an included key that had a bucket are those that it had, merged with those
  -- appended, and elsewhere they are what the appends make of those that were there.
  pub flush_during_lem :
      Everywhere IsFiled b.buckets
      → All (λ append. IsSortable append.1.exchange append.1) appends
      → Flushed (flush_during appends include faults now (b, table))
  flush_during_lem v p = elim (Bool-cases (nat_eq (length batch) 0)) [
    | inl none_left ↦ rw (flush_none none_left) (
        Flushed.taken (record {
          batch = batch;
          of_included = of_included;
          count = ground arith;
          written = upsert_none batch none_left;
          left = bucket_at-current;
        }))
    | inr some_left ↦ elim (Result-cases (upsert_buckets faults now table batch).1) [
      | inl (u, e) ↦ rw (flush_taken some_left e) (
          Flushed.taken (record {
            batch = batch;
            of_included = of_included;
            count = refl;
            written = ap (λ r. ((upsert_buckets faults now table batch).0, r)) e;
            left = bucket_at-current;
          }))
      | inr (e, k) ↦ rw (flush_refused some_left e k) (
          Flushed.refused (record {
            batch = batch;
            of_included = of_included;
            refused = k;
            unchanged = upsert_buckets_failed faults now table batch e k;
            trades = put_back;
          }))
    ]
  ]
    where
      of_included : IsBatch include b.buckets batch
      of_included = detach-IsBatch include b.buckets v

      put_back :
          (j : BucketKey)
          → trades_at j (restore batch current.buckets) ≡ (
              if include j && is_filed j b.buckets
              then merged j (trades_at j b.buckets) (trades_at j (appended j))
              else trades_at j (appended j))
      put_back j =
          trades_at-restore-detach-merged include j b.buckets current.buckets v
            (unfold current in add_each-IsFiled appends _ p (detach-IsFiled v))
          ∙ rw (trades_at-current j) refl
