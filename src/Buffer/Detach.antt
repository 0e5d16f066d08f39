-- ===== src/Buffer/Detach.antt =====
-- What detach and restore of quanttick/websocket_data_buffer.go do to the trades of every key.
use go_quant_tick.Common.{
  ◌≡◌, Bool, true, false, ◌||◌, ◌&&◌, none, some, List, [], ◌∷◌, if◌then◌else◌, Dict, lookup,
  delete, arith, refl, Bool-cases, Option-cases, inl, inr, All, Everywhere, Everywhere-delete, ◌∙◌,
  ap, ◌==◌, eq_iff, eq_self, insert_by, insert_all, stable_sort,
}
use go_quant_tick.Stream.{WebSocketDataBucket}
use go_quant_tick.Store.{BucketKey, BucketKey_Eq}
use go_quant_tick.Buffer.{
  restore, restore_bucket, detach_keys, detach, included_keys, bucket_key_less,
  sort_web_socket_data_bucket_keys, new_bucket, bucket_at,
}
use go_quant_tick.Buffer.Valid.{IsFiled, restore_bucket-IsFiled, bucket_at-IsFiled}
use go_quant_tick.Buffer.Restore.{
  IsWhole, mem, trades_at, trades_at-delete, restore-detach_keys, restore-detach_keys-merged,
  merged,
}

abbrev pub Buckets : Type 0 → Type 0
Buckets D = Dict BucketKey (WebSocketDataBucket D)

module _ (less : BucketKey → BucketKey → Bool) where
  mem-insert_by :
      (j x : BucketKey) (ys : List BucketKey) → mem j (insert_by less x ys) ≡ mem j (x ∷ ys)
  unfolding insert_by
  mem-insert_by j x [] = refl
  mem-insert_by j x (y ∷ ys) = ground (arith, mem-insert_by j x ys)

  mem-insert_all :
      (j : BucketKey) (sorted xs : List BucketKey)
      → mem j (insert_all less sorted xs) ≡ mem j sorted || mem j xs
  unfolding insert_all
  mem-insert_all j sorted [] = ground arith
  mem-insert_all j sorted (x ∷ xs) =
      ground (arith, mem-insert_all j (insert_by less x sorted) xs, mem-insert_by j x sorted)

module _ {D : Type 0} where
  unfoldable pub is_filed : BucketKey → Buckets D → Bool
  is_filed j m = elim (lookup j m) [ none ↦ false | some _ ↦ true ]

  mem-included_keys :
      (include : BucketKey → Bool) (j : BucketKey) (m : Buckets D)
      → mem j (included_keys include m) ≡ include j && is_filed j m
  unfolding included_keys is_filed lookup
  mem-included_keys include j [] = ground arith
  mem-included_keys include j ((k, b) ∷ m) = elim (Bool-cases (k == j)) [
    | inl same ↦
        let u : include k ≡ include j = ap include ((eq_iff k j).0 same) in
        ground (arith, mem-included_keys include j m, u)
    | inr other ↦ ground (arith, mem-included_keys include j m)
  ]

  trades_at_missing :
      (j : BucketKey) (m : Buckets D) → is_filed j m ≡ false → trades_at j m ≡ ([], [])
  unfolding trades_at bucket_at is_filed new_bucket
  trades_at_missing j m h = ground arith

  -- Every key of the map that is included is that of a whole minute.
  IsWhole-of_mem :
      (include : BucketKey → Bool) (m : Buckets D) (ks : List BucketKey)
      → Everywhere IsFiled m
      → ((j : BucketKey) → mem j ks ≡ true → is_filed j m ≡ true)
      → All IsWhole ks
  IsWhole-of_mem include m [] v h = tt
  IsWhole-of_mem include m (k ∷ ks) v h = (
    filed_whole k (h k (ground (arith, eq_self k))),
    IsWhole-of_mem include m ks v (λ j e. h j (ground arith)),
  )
    where
      filed_whole : (k : BucketKey) → is_filed k m ≡ true → IsWhole k
      filed_whole k e = elim (Option-cases (lookup k m)) [
        | inl n ↦ unfold is_filed in ground arith
        | inr (b, n) ↦ (v.at_key k b n).whole
      ]

  unfoldable pub keys_of : (BucketKey → Bool) → Buckets D → List BucketKey
  keys_of include m = sort_web_socket_data_bucket_keys (included_keys include m)

  pub mem-keys_of :
      (include : BucketKey → Bool) (j : BucketKey) (m : Buckets D)
      → mem j (keys_of include m) ≡ include j && is_filed j m
  unfolding keys_of sort_web_socket_data_bucket_keys stable_sort
  mem-keys_of include j m =
      mem-insert_all bucket_key_less j [] (included_keys include m) ∙ mem-included_keys include j m

  pub keys_of-IsWhole :
      (include : BucketKey → Bool) (m : Buckets D)
      → Everywhere IsFiled m
      → All IsWhole (keys_of include m)
  keys_of-IsWhole include m v =
      IsWhole-of_mem include m (keys_of include m) v
        (λ j e. ground (arith, mem-keys_of include j m))

  trades_at-detach_keys :
      (j : BucketKey) (ks : List BucketKey) (m : Buckets D)
      → trades_at j (detach_keys ks m).1 ≡ (if mem j ks then ([], []) else trades_at j m)
  unfolding detach_keys
  trades_at-detach_keys j [] m = refl
  trades_at-detach_keys j (k ∷ ks) m = elim (Bool-cases (k == j)) [
    | inl same ↦ elim (Bool-cases (mem j ks)) [
      | inl h ↦ trades_at-detach_keys j ks (delete k m) ∙ rw (h, same) refl
      | inr h ↦
          trades_at-detach_keys j ks (delete k m)
          ∙ rw (h, same) (trades_at-delete j k m ∙ rw same refl)
    ]
    | inr other ↦ elim (Bool-cases (mem j ks)) [
      | inl h ↦ trades_at-detach_keys j ks (delete k m) ∙ rw (h, other) refl
      | inr h ↦
          trades_at-detach_keys j ks (delete k m)
          ∙ rw (h, other) (trades_at-delete j k m ∙ rw other refl)
    ]
  ]

  pub detach_keys-IsFiled :
      (ks : List BucketKey) (m : Buckets D)
      → Everywhere IsFiled m
      → Everywhere IsFiled (detach_keys ks m).1
  unfolding detach_keys
  detach_keys-IsFiled [] m v = v
  detach_keys-IsFiled (k ∷ ks) m v =
      detach_keys-IsFiled ks (delete k m) (Everywhere-delete IsFiled k m v)

  pub restore-IsFiled :
      (ks : List BucketKey) (m m' : Buckets D)
      → All IsWhole ks
      → Everywhere IsFiled m
      → Everywhere IsFiled m'
      → Everywhere IsFiled (restore (detach_keys ks m).0 m')
  unfolding detach_keys restore
  restore-IsFiled [] m m' w v v' = v'
  restore-IsFiled (k ∷ ks) m m' w v v' =
      restore-IsFiled ks (delete k m) (restore_bucket (bucket_at k m) m') w.1
        (Everywhere-delete IsFiled k m v)
        (restore_bucket-IsFiled k (bucket_at k m) m' (bucket_at-IsFiled k m w.0 v) v')

  -- Detaching takes the trades of the included keys and no others.
  pub trades_at-detach :
      (include : BucketKey → Bool) (j : BucketKey) (m : Buckets D)
      → trades_at j (detach include m).1 ≡ (if include j then ([], []) else trades_at j m)
  unfolding detach keys_of
  trades_at-detach include j m = ground (
    arith,
    trades_at-detach_keys j (keys_of include m) m,
    mem-keys_of include j m,
    trades_at_missing j m,
  )

  -- Restoring what was detached gives every trade back.
  pub trades_at-restore-detach :
      (include : BucketKey → Bool) (j : BucketKey) (m : Buckets D)
      → Everywhere IsFiled m
      → trades_at j (restore (detach include m).0 (detach include m).1) ≡ trades_at j m
  unfolding detach keys_of
  trades_at-restore-detach include j m v =
      restore-detach_keys j (keys_of include m) m _ (keys_of-IsWhole include m v) v
        (detach_keys-IsFiled (keys_of include m) m v)
        (trades_at-detach_keys j (keys_of include m) m)

  -- Restoring what was detached merges it with what has taken its places.
  pub trades_at-restore-detach-merged :
      (include : BucketKey → Bool) (j : BucketKey) (m m' : Buckets D)
      → Everywhere IsFiled m
      → Everywhere IsFiled m'
      → trades_at j (restore (detach include m).0 m') ≡ (
          if include j && is_filed j m
          then merged j (trades_at j m) (trades_at j m')
          else trades_at j m')
  unfolding detach keys_of
  trades_at-restore-detach-merged include j m m' v v' =
      restore-detach_keys-merged j (keys_of include m) m m' (keys_of-IsWhole include m v) v v'
      ∙ rw (mem-keys_of include j m) refl
