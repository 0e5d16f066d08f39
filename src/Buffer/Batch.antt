-- ===== src/Buffer/Batch.antt =====
-- The buckets that detach of quanttick/websocket_data_buffer.go hands to the store.
use mathlib.Core.List.{Memᴰ}
use go_quant_tick.Common.{
  ◌≡◌, Bool, true, some, List, [], ◌∷◌, lookup, delete, lookup-delete, arith, refl, Bool-cases, inl,
  inr, All, Everywhere, Everywhere-delete, ◌∙◌, ap, ◌==◌, eq_iff, eq_self,
}
use go_quant_tick.Stream.{WebSocketDataBucket}
use go_quant_tick.Store.{BucketKey, BucketKey_Eq, key_of}
use go_quant_tick.Buffer.{detach_keys, detach, bucket_at}
use go_quant_tick.Buffer.Valid.{IsFiled, bucket_at-IsFiled}
use go_quant_tick.Buffer.Restore.{IsWhole, mem}
use go_quant_tick.Buffer.Detach.{Buckets, keys_of, is_filed, mem-keys_of, keys_of-IsWhole}

module _ {D : Type 0} where
  -- The buckets of the included keys, and no bucket of another key.
  pub record IsBatch (include : BucketKey → Bool) (m : Buckets D)
      (batch : List (WebSocketDataBucket D)) : Type 0 where
    pub included : All (λ bucket. include (key_of bucket) ≡ true) batch
    pub whole :
        (key : BucketKey) (bucket : WebSocketDataBucket D)
        → include key ≡ true
        → lookup key m ≡ some bucket
        → Memᴰ bucket batch

  key_of-IsFiled : (key : BucketKey) (b : WebSocketDataBucket D) → IsFiled key b → key_of b ≡ key
  unfolding key_of
  key_of-IsFiled key b f = ground (arith, f.exchange, f.symbol, f.filter, f.timestamp)

  detach_keys-included :
      (include : BucketKey → Bool) (ks : List BucketKey) (m : Buckets D)
      → All IsWhole ks
      → Everywhere IsFiled m
      → ((j : BucketKey) → mem j ks ≡ true → include j ≡ true)
      → All (λ bucket. include (key_of bucket) ≡ true) (detach_keys ks m).0
  unfolding detach_keys
  detach_keys-included include [] m w v h = tt
  detach_keys-included include (k ∷ ks) m w v h = (
    ap include (key_of-IsFiled k (bucket_at k m) (bucket_at-IsFiled k m w.0 v))
        ∙ h k (rw (eq_self k) refl),
    detach_keys-included include ks (delete k m) w.1 (Everywhere-delete IsFiled k m v)
        (λ j e. h j (ground arith)),
  )

  detach_keys-whole :
      (j : BucketKey) (b : WebSocketDataBucket D) (ks : List BucketKey) (m : Buckets D)
      → mem j ks ≡ true
      → lookup j m ≡ some b
      → Memᴰ b (detach_keys ks m).0
  unfolding detach_keys bucket_at
  detach_keys-whole j b [] m h e = cc
  detach_keys-whole j b (k ∷ ks) m h e = elim (Bool-cases (k == j)) [
    | inl same ↦ Memᴰ.head (ground (arith, (eq_iff k j).0 same))
    | inr other ↦
        Memᴰ.tail
          (detach_keys-whole j b ks (delete k m) (ground arith) (lookup-delete k j m ∙ rw other e))
  ]

  pub detach-IsBatch :
      (include : BucketKey → Bool) (m : Buckets D)
      → Everywhere IsFiled m
      → IsBatch include m (detach include m).0
  unfolding detach keys_of is_filed
  detach-IsBatch include m v = record {
    included =
        detach_keys-included include (keys_of include m) m (keys_of-IsWhole include m v) v
          (λ j e. ground (arith, mem-keys_of include j m));
    whole = λ j b i e.
        detach_keys-whole j b (keys_of include m) m
          (mem-keys_of include j m ∙ rw (i, is_filed, e) refl) e;
  }
