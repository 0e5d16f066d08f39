-- ===== src/Buffer/Restore.antt =====
-- detach and then restore, in quanttick/websocket_data_buffer.go, key by key.
use go_quant_tick.Common.{
  ◌≡◌, Bool, false, ◌||◌, List, [], ◌∷◌, if◌then◌else◌, Dict, insert, delete, lookup-insert,
  lookup-delete, arith, refl, sym, Bool-cases, inl, inr, All, Everywhere, Everywhere-delete, ◌∙◌,
  append-nil, ap, ◌==◌, eq_iff,
}
use go_quant_tick.Trade.{minute, truncate, TradeEvent}
use go_quant_tick.Stream.{WebSocketDataBucket, raw_trades, aggregated_trades}
use go_quant_tick.Merge.Insert.{merge_web_socket_data_trades}
use go_quant_tick.Merge.Insert.Invariant.{canonical_of_IsCanonical}
use go_quant_tick.Store.{BucketKey, BucketKey_Eq}
use go_quant_tick.Buffer.{new_bucket, bucket_at, restore_bucket, restore, detach_keys}
use go_quant_tick.Buffer.Valid.{
  IsFiled, bucket_at-IsFiled, restored, restore_bucket_lem, restore_bucket-IsFiled,
}

abbrev Buckets : Type 0 → Type 0
Buckets D = Dict BucketKey (WebSocketDataBucket D)

-- The key of a whole minute.
abbrev pub IsWhole : BucketKey → Type 0
IsWhole key = truncate minute key.timestamp ≡ key.timestamp

abbrev pub mem : BucketKey → List BucketKey → Bool
mem j [] = false
mem j (k ∷ ks) = (k == j) || mem j ks

module _ {D : Type 0} where
  abbrev pub lists_of : WebSocketDataBucket D → List (TradeEvent D) × List (TradeEvent D)
  lists_of b = (b.raw_trades, b.aggregated_trades)

  -- The raw and the aggregated trades that the map has under a key.
  unfoldable pub trades_at :
      BucketKey → Dict BucketKey (WebSocketDataBucket D) → List (TradeEvent D) × List (TradeEvent D)
  trades_at key m = lists_of (bucket_at key m)

  trades_at-insert :
      (j k : BucketKey) (b : WebSocketDataBucket D) (m : Buckets D)
      → trades_at j (insert k b m) ≡ (if k == j then lists_of b else trades_at j m)
  unfolding trades_at bucket_at
  trades_at-insert j k b m = elim (Bool-cases (k == j)) [
    | inl e ↦ ground (arith, lookup-insert k j b m)
    | inr e ↦ ground (arith, lookup-insert k j b m)
  ]

  pub trades_at-delete :
      (j k : BucketKey) (m : Buckets D)
      → trades_at j (delete k m) ≡ (if k == j then ([], []) else trades_at j m)
  unfolding trades_at bucket_at new_bucket
  trades_at-delete j k m = elim (Bool-cases (k == j)) [
    | inl e ↦ ground (arith, lookup-delete k j m)
    | inr e ↦ ground (arith, lookup-delete k j m)
  ]

  module _ (key : BucketKey) (b c : WebSocketDataBucket D) (f : IsFiled key b)
      (g : IsFiled key c) where
    restored_alone : lists_of c ≡ ([], []) → lists_of (restored key b c) ≡ lists_of b
    unfolding restored merge_web_socket_data_trades
    restored_alone e =
        rw
          (
            ap (λ l. l.0) e,
            ap (λ l. l.1) e,
            append-nil b.raw_trades,
            append-nil b.aggregated_trades,
            canonical_of_IsCanonical key.exchange raw_trades b.raw_trades f.raw,
            canonical_of_IsCanonical key.exchange aggregated_trades b.aggregated_trades
                f.aggregated,
          )
          refl

    restored_nothing : lists_of b ≡ ([], []) → lists_of (restored key b c) ≡ lists_of c
    unfolding restored merge_web_socket_data_trades
    restored_nothing e =
        rw
          (
            ap (λ l. l.0) e,
            ap (λ l. l.1) e,
            canonical_of_IsCanonical key.exchange raw_trades c.raw_trades g.raw,
            canonical_of_IsCanonical key.exchange aggregated_trades c.aggregated_trades
                g.aggregated,
          )
          refl

  trades_at-restore_bucket :
      (j k : BucketKey) (b : WebSocketDataBucket D) (m : Buckets D)
      → IsFiled k b
      → trades_at j (restore_bucket b m)
        ≡ (if k == j then lists_of (restored k b (bucket_at k m)) else trades_at j m)
  trades_at-restore_bucket j k b m f =
      rw (restore_bucket_lem k b m f) (trades_at-insert j k (restored k b (bucket_at k m)) m)

  -- A bucket that was empty when it was detached changes nothing.
  restore-detach_empty :
      (j : BucketKey) (ks : List BucketKey) (m m' : Buckets D)
      → All IsWhole ks
      → Everywhere IsFiled m
      → Everywhere IsFiled m'
      → trades_at j m ≡ ([], [])
      → trades_at j (restore (detach_keys ks m).0 m') ≡ trades_at j m'
  unfolding restore detach_keys
  restore-detach_empty j [] m m' w v v' e = refl
  restore-detach_empty j (k ∷ ks) m m' w v v' e =
      let f = bucket_at-IsFiled k m w.0 v in
      let ih =
        restore-detach_empty j ks (delete k m) (restore_bucket (bucket_at k m) m') w.1
          (Everywhere-delete IsFiled k m v) (restore_bucket-IsFiled k (bucket_at k m) m' f v') in
      elim (Bool-cases (k == j)) [
        | inl same ↦
            let u : k ≡ j = (eq_iff k j).0 same in
            ih (trades_at-delete j k m ∙ rw same refl)
            ∙ trades_at-restore_bucket j k (bucket_at k m) m' f
            ∙ rw same (
                restored_nothing k (bucket_at k m) (bucket_at k m') f
                  (bucket_at-IsFiled k m' w.0 v')
                  (unfold trades_at in ap (λ x. trades_at x m) u ∙ e)
                ∙ (unfold trades_at in ap (λ x. trades_at x m') u))
        | inr other ↦
            ih (trades_at-delete j k m ∙ rw other e)
            ∙ trades_at-restore_bucket j k (bucket_at k m) m' f
            ∙ rw other refl
      ]

  -- What is detached comes back whole to a map that has nothing in its places.
  pub restore-detach_keys :
      (j : BucketKey) (ks : List BucketKey) (m m' : Buckets D)
      → All IsWhole ks
      → Everywhere IsFiled m
      → Everywhere IsFiled m'
      → trades_at j m' ≡ (if mem j ks then ([], []) else trades_at j m)
      → trades_at j (restore (detach_keys ks m).0 m') ≡ trades_at j m
  unfolding restore detach_keys
  restore-detach_keys j [] m m' w v v' e = e
  restore-detach_keys j (k ∷ ks) m m' w v v' e =
      let f = bucket_at-IsFiled k m w.0 v in
      let next = Everywhere-delete IsFiled k m v in
      let next' = restore_bucket-IsFiled k (bucket_at k m) m' f v' in
      elim (Bool-cases (k == j)) [
        | inl same ↦
            let u : k ≡ j = (eq_iff k j).0 same in
            let e' : trades_at j m' ≡ ([], []) = rw same at e in
            restore-detach_empty j ks (delete k m) (restore_bucket (bucket_at k m) m') w.1 next
              next' (trades_at-delete j k m ∙ rw same refl)
            ∙ trades_at-restore_bucket j k (bucket_at k m) m' f
            ∙ rw same (
                restored_alone k (bucket_at k m) (bucket_at k m') f (bucket_at-IsFiled k m' w.0 v')
                  (unfold trades_at in ap (λ x. trades_at x m') u ∙ e')
                ∙ unfold trades_at in ap (λ x. trades_at x m) u)
        | inr other ↦
            let e' : trades_at j m' ≡ (if mem j ks then ([], []) else trades_at j m) =
              rw other at e in
            let put : trades_at j (restore_bucket (bucket_at k m) m') ≡ trades_at j m' =
              trades_at-restore_bucket j k (bucket_at k m) m' f ∙ rw other refl in
            let del : trades_at j (delete k m) ≡ trades_at j m =
              trades_at-delete j k m ∙ rw other refl in
            restore-detach_keys j ks (delete k m) (restore_bucket (bucket_at k m) m') w.1 next next'
              (put ∙ e' ∙ ap (λ x. if mem j ks then ([], []) else x) (sym del))
            ∙ del
      ]

  -- the lists of a bucket that came back, merged with those of the bucket in its place
  abbrev pub merged :
      BucketKey
      → List (TradeEvent D) × List (TradeEvent D)
      → List (TradeEvent D) × List (TradeEvent D)
      → List (TradeEvent D) × List (TradeEvent D)
  merged key (raw, aggregated) (raw', aggregated') = (
    merge_web_socket_data_trades key.exchange raw_trades raw raw',
    merge_web_socket_data_trades key.exchange aggregated_trades aggregated aggregated',
  )

  -- What is detached is merged with what has taken its places.
  pub restore-detach_keys-merged :
      (j : BucketKey) (ks : List BucketKey) (m m' : Buckets D)
      → All IsWhole ks
      → Everywhere IsFiled m
      → Everywhere IsFiled m'
      → trades_at j (restore (detach_keys ks m).0 m')
        ≡ (if mem j ks then merged j (trades_at j m) (trades_at j m') else trades_at j m')
  unfolding restore detach_keys
  restore-detach_keys-merged j [] m m' w v v' = refl
  restore-detach_keys-merged j (k ∷ ks) m m' w v v' =
      let f = bucket_at-IsFiled k m w.0 v in
      let next = Everywhere-delete IsFiled k m v in
      let next' = restore_bucket-IsFiled k (bucket_at k m) m' f v' in
      elim (Bool-cases (k == j)) [
        | inl same ↦
            restore-detach_empty j ks (delete k m) (restore_bucket (bucket_at k m) m') w.1 next
              next' (trades_at-delete j k m ∙ rw same refl)
            ∙ trades_at-restore_bucket j k (bucket_at k m) m' f
            ∙ rw same (
                unfold trades_at restored in
                ap (λ x. merged x (trades_at x m) (trades_at x m')) ((eq_iff k j).0 same))
        | inr other ↦
            let put : trades_at j (restore_bucket (bucket_at k m) m') ≡ trades_at j m' =
              trades_at-restore_bucket j k (bucket_at k m) m' f ∙ rw other refl in
            let del : trades_at j (delete k m) ≡ trades_at j m =
              trades_at-delete j k m ∙ rw other refl in
            restore-detach_keys-merged j ks (delete k m) (restore_bucket (bucket_at k m) m') w.1
              next next'
            ∙ rw (other, put, del) refl
      ]
