-- ===== src/Worker/Queued.antt =====
-- The queue of cmd/quanttick/bucket_flush_worker.go and its map of requests.
use go_quant_tick.Common.{
  ◌≡◌, Bool, true, false, ◌||◌, none, some, List, [], ◌∷◌, ◌++◌, Text, ltb, Dict, lookup, insert,
  lookup-insert, arith, refl, Bool-cases, Option-cases, inl, inr, ◌⊎◌, ◌==◌,
}
use go_quant_tick.Trade.{Time}
use go_quant_tick.Worker.{
  BucketFlushRequest, BucketFlushKey, BucketFlushKey_Eq, BucketFlushWorker, request_key, enqueue,
  request_flush, requeue, later_of, flush_key_eq_iff, new_bucket_flush_worker,
}

abbrev pub queues : BucketFlushKey → List BucketFlushKey → Bool
queues key [] = false
queues key (k ∷ ks) = (k == key) || queues key ks

abbrev pub EachOnce : List BucketFlushKey → Type 0
EachOnce [] = Unit
EachOnce (k ∷ ks) = (queues k ks ≡ false) × EachOnce ks

abbrev pub has_request : BucketFlushKey → Dict BucketFlushKey BucketFlushRequest → Bool
has_request key pending = elim (lookup key pending) [ none ↦ false | some _ ↦ true ]

-- The queue holds exactly the markets with a request, each once.
pub record IsQueued (w : BucketFlushWorker) : Type 0 where
  pub once : EachOnce w.order
  pub agrees : (key : BucketFlushKey) → has_request key w.pending ≡ queues key w.order

queues-append :
    (key : BucketFlushKey) (xs ys : List BucketFlushKey)
    → queues key (xs ++ ys) ≡ queues key xs || queues key ys
queues-append key [] ys = refl
queues-append key (x ∷ xs) ys = ground (arith, queues-append key xs ys)

EachOnce-append :
    (xs : List BucketFlushKey) (key : BucketFlushKey)
    → queues key xs ≡ false
    → EachOnce xs
    → EachOnce (xs ++ key ∷ [])
EachOnce-append [] key h d = (refl, tt)
EachOnce-append (x ∷ xs) key h d = (
  ground
      (arith, queues-append x xs (key ∷ []), d.0, flush_key_eq_iff x key, flush_key_eq_iff key x),
  EachOnce-append xs key (ground arith) d.1,
)

module _ (w : BucketFlushWorker) (q : IsQueued w) (key : BucketFlushKey)
    (r : BucketFlushRequest) where
  new-IsQueued :
      lookup key w.pending ≡ none
      → IsQueued (record w { pending = insert key r w.pending; order = w.order ++ key ∷ [] })
  new-IsQueued e = record {
    once = EachOnce-append w.order key (ground (arith, q.agrees key)) q.once;
    agrees = λ k.
        ground
          (arith, lookup-insert key k r w.pending, queues-append k w.order (key ∷ []), q.agrees k);
  }

  replaced-IsQueued :
      (old : BucketFlushRequest)
      → lookup key w.pending ≡ some old
      → IsQueued (record w { pending = insert key r w.pending })
  replaced-IsQueued old e = record {
    once = q.once;
    agrees = λ k.
        ground (
          arith,
          lookup-insert key k r w.pending,
          q.agrees k,
          q.agrees key,
          flush_key_eq_iff key k,
        );
  }

pub enqueue-IsQueued :
    (w : BucketFlushWorker) (r : BucketFlushRequest) → IsQueued w → IsQueued (enqueue w r).0
unfolding enqueue
enqueue-IsQueued w r q = elim (Option-cases (lookup (request_key r) w.pending)) [
  | inl e ↦ rw (e, enqueue) (new-IsQueued w q (request_key r) r e)
  | inr (old, e) ↦ elim (Bool-cases (ltb old.timestamp r.timestamp)) [
    | inl newer ↦ rw (e, enqueue, newer) (replaced-IsQueued w q (request_key r) _ old e)
    | inr not_newer ↦ rw (e, enqueue, not_newer) q
  ]
]

new_request : Text → Text → Time → BucketFlushRequest
new_request exchange symbol timestamp = record {
  exchange = exchange;
  symbol = symbol;
  timestamp = timestamp;
  failures = 0;
  not_before = 0;
}

request_flush_cases :
    (w : BucketFlushWorker) (exchange symbol : Text) (timestamp : Time)
    → ((request_flush w exchange symbol timestamp).0 ≡ w)
      ⊎ ((request_flush w exchange symbol timestamp).0
          ≡ (enqueue w (new_request exchange symbol timestamp)).0)
unfolding request_flush new_request
request_flush_cases w exchange symbol timestamp = elim (Bool-cases w.accepting) [
  | inl accepts ↦ inr (ground arith)
  | inr closed ↦ inl (ground arith)
]

-- A request, accepted or not, leaves a queue of exactly the markets with a pending request, each
-- once, as it was before.
pub request_flush-IsQueued :
    (w : BucketFlushWorker) (exchange symbol : Text) (timestamp : Time)
    → IsQueued w
    → IsQueued (request_flush w exchange symbol timestamp).0
request_flush-IsQueued w exchange symbol timestamp q =
    elim (request_flush_cases w exchange symbol timestamp) [
      | inl e ↦ rw e q
      | inr e ↦ rw e (enqueue-IsQueued w (new_request exchange symbol timestamp) q)
    ]

requeue_cases :
    (w : BucketFlushWorker) (r : BucketFlushRequest)
    → (requeue w r ≡ w)
      ⊎ ((lookup (request_key r) w.pending ≡ none)
          × (requeue w r ≡ record w {
            pending = insert (request_key r) r w.pending;
            order = w.order ++ request_key r ∷ [];
          }))
      ⊎ ((old : BucketFlushRequest) × (new : BucketFlushRequest) × (lookup (request_key r) w.pending
            ≡ some old)
          × (requeue w r ≡ record w { pending = insert (request_key r) new w.pending }))
unfolding requeue
requeue_cases w r = elim (Bool-cases w.accepting) [
  | inr closed ↦ inl (ground arith)
  | inl accepts ↦ elim (Option-cases (lookup (request_key r) w.pending)) [
    | inl e ↦ inr (inl (e, ground arith))
    | inr (old, e) ↦ inr (inr (old, _, e, requeued old e accepts))
  ]
]
  where
    requeued :
        (old : BucketFlushRequest)
        → lookup (request_key r) w.pending ≡ some old
        → w.accepting ≡ true
        → requeue w r ≡ record w {
          pending =
              insert
                (request_key r)
                (record old {
                  timestamp = later_of r.timestamp old.timestamp;
                  failures = later_of r.failures old.failures;
                  not_before = later_of r.not_before old.not_before;
                })
                w.pending;
        }
    requeued old e accepts = ground arith

-- A request that comes back leaves a queue of exactly the markets with a pending request, each once,
-- as it was before.
pub requeue-IsQueued :
    (w : BucketFlushWorker) (r : BucketFlushRequest) → IsQueued w → IsQueued (requeue w r)
requeue-IsQueued w r q = elim (requeue_cases w r) [
  | inl e ↦ rw e q
  | inr (inl (n, e)) ↦ rw e (new-IsQueued w q (request_key r) r n)
  | inr (inr (old, new, n, e)) ↦ rw e (replaced-IsQueued w q (request_key r) new old n)
]

pub new_bucket_flush_worker-IsQueued : IsQueued new_bucket_flush_worker
unfolding new_bucket_flush_worker lookup
new_bucket_flush_worker-IsQueued = record { once = tt; agrees = λ key. refl }
