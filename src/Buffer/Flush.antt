-- ===== src/Buffer/Flush.antt =====
-- What flush of quanttick/websocket_data_buffer.go leaves in the buffer and in the table, where the
-- store succeeds and where it fails, with no append between.
use go_quant_tick.Common.{
  ℕ, ◌≡◌, Bool, List, [], ◌∷◌, arith, refl, Bool-cases, Result-cases, inl, inr, ◌⊎◌, Everywhere, ok,
  err, length, nat_eq,
}
use go_quant_tick.Trade.{Time, DecimalOps}
use go_quant_tick.Stream.{WebSocketDataBucket}
use go_quant_tick.Store.{
  BucketKey, BucketKey_Eq, Table, Faults, StoreError, transaction, upsert_buckets,
}
use go_quant_tick.Buffer.{
  WebSocketDataBuffer, new_web_socket_data_buffer, bucket_at, add_each, restore, detach,
  flush_during, flush_included,
}
use go_quant_tick.Buffer.Valid.{IsFiled}
use go_quant_tick.Buffer.Restore.{trades_at}
use go_quant_tick.Buffer.Detach.{
  Buckets, keys_of, keys_of-IsWhole, trades_at-restore-detach, restore-IsFiled, detach_keys-IsFiled,
}

module _ {D : Type 0} ⦃ops : DecimalOps D⦄ where
  -- A transaction that fails leaves the table as it was.
  pub upsert_buckets_failed :
      (faults : Faults) (now : Time) (table : Table D) (buckets : List (WebSocketDataBucket D))
      (e : StoreError)
      → (upsert_buckets faults now table buckets).1 ≡ err e
      → (upsert_buckets faults now table buckets).0 ≡ table
  unfolding upsert_buckets
  upsert_buckets_failed faults now table [] e h = refl
  upsert_buckets_failed faults now table (b ∷ buckets) e h =
      elim (Result-cases (transaction faults now table (b ∷ buckets))) [
        | inl (written, k) ↦ ground arith
        | inr (e', k) ↦ ground arith
      ]

  module _ (include : BucketKey → Bool) (faults : Faults) (now : Time) (b : WebSocketDataBuffer D)
      (table : Table D) where
    abbrev detached : List (WebSocketDataBucket D)
    detached = (detach include b.buckets).0

    abbrev left : Buckets D
    left = (detach include b.buckets).1

    flush_included_cases :
        ((n : ℕ) × ((flush_included include faults now (b, table)).1 ≡ ok n)
          × ((flush_included include faults now (b, table)).0.0 ≡ record b { buckets = left }))
        ⊎ ((e : StoreError) × ((upsert_buckets faults now table detached).1 ≡ err e)
            × (flush_included include faults now (b, table) ≡ (
              (
                record b { buckets = restore detached left },
                (upsert_buckets faults now table detached).0,
              ),
              err e,
            )))
    unfolding flush_included go_quant_tick.Buffer.flush_during go_quant_tick.Buffer.add_each
    flush_included_cases = elim (Bool-cases (nat_eq (length detached) 0)) [
      | inl none_left ↦ inl (0, rw none_left refl, rw none_left refl)
      | inr some_left ↦ elim (Result-cases (upsert_buckets faults now table detached).1) [
        | inl (u, k) ↦ inl (length detached, rw (some_left, k) refl, rw (some_left, k) refl)
        | inr (e, k) ↦ inr (e, k, rw (some_left, k) refl)
      ]
    ]

    -- Where the store fails, a flush that no append meets, of a buffer whose buckets are in order,
    -- leaves under every key the trades that it had, raw and aggregated, and leaves the table as it was.
    pub flush_included_failed :
        (e : StoreError) (j : BucketKey)
        → Everywhere IsFiled b.buckets
        → (flush_included include faults now (b, table)).1 ≡ err e
        → (trades_at j (flush_included include faults now (b, table)).0.0.buckets
            ≡ trades_at j b.buckets)
          × ((flush_included include faults now (b, table)).0.1 ≡ table)
    flush_included_failed e j v h = elim flush_included_cases [
      | inl (m, k, state) ↦ cc (k, h)
      | inr (e', k, state) ↦ rw state (
        trades_at-restore-detach include j b.buckets v,
        upsert_buckets_failed faults now table detached e' k,
      )
    ]

    -- Whether a flush that no append meets succeeds or fails, the buckets of a buffer stay in order
    -- where they were: each
    -- under its own key, both lists sorted with at most one trade for each UID that is not empty, and
    -- the sets of UIDs right.
    pub flush_included-IsFiled :
        Everywhere IsFiled b.buckets
        → Everywhere IsFiled (flush_included include faults now (b, table)).0.0.buckets
    unfolding detach keys_of
    flush_included-IsFiled v = elim flush_included_cases [
      | inl (m, k, state) ↦ rw state (detach_keys-IsFiled (keys_of include b.buckets) b.buckets v)
      | inr (e, k, state) ↦ rw state (
          restore-IsFiled (keys_of include b.buckets) b.buckets _
            (keys_of-IsWhole include b.buckets v) v
            (detach_keys-IsFiled (keys_of include b.buckets) b.buckets v))
    ]
