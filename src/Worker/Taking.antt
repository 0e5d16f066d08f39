-- ===== src/Worker/Taking.antt =====
-- take of cmd/quanttick/bucket_flush_worker.go.
use go_quant_tick.Common.{
  subst, ap, ◌-◌, ◌≡◌, ◌≤◌, true, false, ◌||◌, none, some, List, [], ◌∷◌, if◌then◌else◌, Dict,
  lookup, delete, lookup-delete, arith, refl, Bool-cases, Option-cases, inl, inr, ◌⊎◌, ◌==◌,
}
use go_quant_tick.Trade.{Time, Duration}
use go_quant_tick.Worker.{
  BucketFlushRequest, BucketFlushKey, BucketFlushKey_Eq, BucketFlushWorker, request_at, is_ready,
  find_ready, next_attempt, take_request, Taken, flush_key_eq_iff,
}
use go_quant_tick.Worker.Queued.{queues, EachOnce, IsQueued}

-- The key that is found is that of a ready request, and leaves the order.
record Found (now : Time) (pending : Dict BucketFlushKey BucketFlushRequest)
    (order : List BucketFlushKey) (key : BucketFlushKey) (rest : List BucketFlushKey) : Type 0 where
  ready : is_ready now pending key ≡ true
  split : (j : BucketFlushKey) → queues j order ≡ (key == j) || queues j rest
  gone : queues key rest ≡ false
  once : EachOnce rest

find_ready-Found :
    (now : Time) (pending : Dict BucketFlushKey BucketFlushRequest) (order : List BucketFlushKey)
    (key : BucketFlushKey) (rest : List BucketFlushKey)
    → EachOnce order
    → find_ready now pending order ≡ some (key, rest)
    → Found now pending order key rest
unfolding find_ready
find_ready-Found now pending [] key rest d h = cc
find_ready-Found now pending (k ∷ order) key rest d h = elim (Bool-cases (is_ready now pending k)) [
  | inl here ↦
      let e : ◌≡◌ {A = BucketFlushKey × List BucketFlushKey} (k, order) (key, rest) =
        ground arith in
      subst (λ x. Found now pending (k ∷ order) x.0 x.1) e
        (record { ready = here; split = λ j. refl; gone = d.0; once = d.1 })
  | inr later ↦ elim (Option-cases (find_ready now pending order)) [
    | inl n ↦ ground arith
    | inr (x, n) ↦
        let f = find_ready-Found now pending order x.0 x.1 d.1 n in
        let e : ◌≡◌ {A = BucketFlushKey × List BucketFlushKey} (x.0, k ∷ x.1) (key, rest) =
          ground arith in
        subst (λ y. Found now pending (k ∷ order) y.0 y.1) e
          (record {
            ready = f.ready;
            split = λ j. ground (arith, f.split j);
            gone =
                ground
                  (arith, f.split k, d.0, f.gone, flush_key_eq_iff k x.0, flush_key_eq_iff x.0 k);
            once = (ground (arith, f.split k, d.0), f.once);
          })
  ]
]

-- What `take` leaves: nothing changed, or a request that may be tried now has left queue and map.
pub record TakenFrom (w : BucketFlushWorker) (now : Time) (w' : BucketFlushWorker)
    (r : BucketFlushRequest) : Type 0 where
  pub may_try : r.not_before ≤ now
  pub key : BucketFlushKey
  pub was_pending : lookup key w.pending ≡ some r
  left :
      (j : BucketFlushKey) → lookup j w'.pending ≡ (if key == j then none else lookup j w.pending)

take_found :
    (w : BucketFlushWorker) (now : Time) (key : BucketFlushKey) (rest : List BucketFlushKey)
    → IsQueued w
    → find_ready now w.pending w.order ≡ some (key, rest)
    → IsQueued (record w { pending = delete key w.pending; order = rest })
      × TakenFrom w now
          (record w { pending = delete key w.pending; order = rest })
          (request_at key w.pending)
unfolding is_ready request_at
take_found w now key rest q h =
    let f = find_ready-Found now w.pending w.order key rest q.once h in
    elim (Option-cases (lookup key w.pending)) [
      | inl n ↦ ground (arith, q.agrees key, f.split key, flush_key_eq_iff key key)
      | inr (r, n) ↦ (
        record {
          once = f.once;
          agrees = λ j. ground (
            arith,
            lookup-delete key j w.pending,
            q.agrees j,
            f.split j,
            f.gone,
            flush_key_eq_iff key j,
          );
        },
        record {
          may_try = ground (arith, f.ready);
          key = key;
          was_pending = ground arith;
          left = λ j. lookup-delete key j w.pending;
        },
      )
    ]

take_cases :
    (w : BucketFlushWorker) (now : Time)
    → (((d : Duration) × (take_request w now ≡ (w, Taken.wait_for d)))
        ⊎ ((key : BucketFlushKey) × (rest : List BucketFlushKey) × (find_ready now w.pending w.order
              ≡ some (key, rest))
            × (take_request w now ≡ (
              record w { pending = delete key w.pending; order = rest },
              Taken.ready (request_at key w.pending),
            ))))
unfolding take_request
take_cases w now = take_on w.pending refl
  where
    take_on :
        (p : Dict BucketFlushKey BucketFlushRequest)
        → w.pending ≡ p
        → (((d : Duration) × (take_request w now ≡ (w, Taken.wait_for d)))
            ⊎ ((key : BucketFlushKey) × (rest : List BucketFlushKey) × (find_ready now w.pending
                    w.order
                  ≡ some (key, rest))
                × (take_request w now ≡ (
                  record w { pending = delete key w.pending; order = rest },
                  Taken.ready (request_at key w.pending),
                ))))
    take_on [] e = inl (0, ground arith)
    take_on (x ∷ p) e = elim (Option-cases (find_ready now w.pending w.order)) [
      | inl n ↦ inl (next_attempt 0 w.pending w.order - now, ground arith)
      | inr (k, n) ↦ inr (k.0, k.1, n, ground arith)
    ]

-- Taking a request leaves a queue of exactly the markets with a pending request, each once, as it was
-- before.
pub take_request-IsQueued :
    (w : BucketFlushWorker) (now : Time) → IsQueued w → IsQueued (take_request w now).0
take_request-IsQueued w now q = elim (take_cases w now) [
  | inl (d, e) ↦ rw e q
  | inr (key, rest, h, e) ↦ rw e (take_found w now key rest q h).0
]

-- Where the queue holds exactly the markets with a pending request, each once, a request that is
-- taken was pending and may be tried now, and its market has no request afterwards while every other
-- market keeps the one that it had.
pub take_request-TakenFrom :
    (w : BucketFlushWorker) (now : Time) (r : BucketFlushRequest)
    → IsQueued w
    → (take_request w now).1 ≡ Taken.ready r
    → TakenFrom w now (take_request w now).0 r
take_request-TakenFrom w now r q h = elim (take_cases w now) [
  | inl (d, e) ↦ cc (ap (λ x. x.1) e, h)
  | inr (key, rest, f, e) ↦
      let same : request_at key w.pending ≡ r = cc (ap (λ x. x.1) e, h) in
      rw e (subst (TakenFrom w now _) same (take_found w now key rest q f).1)
]
