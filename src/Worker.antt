-- ===== src/Worker.antt =====
-- cmd/quanttick/bucket_flush_worker.go: requests to flush a market before a time wait in a queue, one
-- for each market, and come back later where the flush fails. The loop of `run` takes a request,
-- flushes, and requeues it; the parts that change the queue are steps, at a time `now`.
pub mod Queued
pub mod Taking
pub mod Requested
pub mod Reachable
pub mod Delay
use go_quant_tick.Common.{
  ℕ, zero, suc, ◌+◌, ◌-◌, ◌*◌, ◌/◌, ◌≡◌, Bool, true, false, ◌&&◌, ◌||◌, not, Option, none, some,
  List, [], ◌∷◌, ◌++◌, ◌↔◌, Text, text_eq, text_eq_iff, ltb, leb, nat_eq, if◌then◌else◌, Eq, Dict,
  lookup, insert, delete, arith,
}
use go_quant_tick.Trade.{Time, Duration, second}

pub record BucketFlushRequest : Type 0 where
  pub exchange : Text
  pub symbol : Text
  pub timestamp : Time
  pub failures : ℕ
  pub not_before : Time

pub record BucketFlushKey : Type 0 where
  pub exchange : Text
  pub symbol : Text

unfoldable pub flush_key_eq : BucketFlushKey → BucketFlushKey → Bool
flush_key_eq a b = text_eq a.exchange b.exchange && text_eq a.symbol b.symbol

pub flush_key_eq_iff : (a b : BucketFlushKey) → (flush_key_eq a b ≡ true) ↔ (a ≡ b)
unfolding flush_key_eq
flush_key_eq_iff a b =
    ground (arith, text_eq_iff a.exchange b.exchange, text_eq_iff a.symbol b.symbol)

instance abbrev pub BucketFlushKey_Eq : Eq BucketFlushKey
BucketFlushKey_Eq = record { equal = flush_key_eq; equal_iff = flush_key_eq_iff }

pub record BucketFlushWorker : Type 0 where
  pub pending : Dict BucketFlushKey BucketFlushRequest
  pub order : List BucketFlushKey
  pub accepting : Bool

unfoldable pub new_bucket_flush_worker : BucketFlushWorker
new_bucket_flush_worker = record { pending = []; order = []; accepting = true }

unfoldable pub request_key : BucketFlushRequest → BucketFlushKey
request_key r = record { exchange = r.exchange; symbol = r.symbol }

-- `Request` behind the test of `accepting`; the Boolean says whether the worker is woken
unfoldable pub enqueue : BucketFlushWorker → BucketFlushRequest → BucketFlushWorker × Bool
enqueue w r = elim (lookup (request_key r) w.pending) [
  | none ↦ (
    record w {
      pending = insert (request_key r) r w.pending;
      order = w.order ++ request_key r ∷ [];
    },
    true,
  )
  | some old ↦ (
    (if ltb old.timestamp r.timestamp
        then record w {
          pending =
              insert (request_key r)
                (record r { failures = old.failures; not_before = old.not_before }) w.pending;
        }
        else w),
    false,
  )
]

unfoldable pub request_flush : BucketFlushWorker → Text → Text → Time → BucketFlushWorker × Bool
request_flush w exchange symbol timestamp =
    if not w.accepting
    then (w, false)
    else enqueue w (record {
      exchange = exchange;
      symbol = symbol;
      timestamp = timestamp;
      failures = 0;
      not_before = 0;
    })

-- `Close`, behind which the loop ends
unfoldable pub stop_accepting : BucketFlushWorker → BucketFlushWorker
stop_accepting w = record w { accepting = false }

-- `pending[key]`, the zero request for a missing key
unfoldable pub request_at :
    BucketFlushKey → Dict BucketFlushKey BucketFlushRequest → BucketFlushRequest
request_at key pending = elim (lookup key pending) [
  | some r ↦ r
  | none ↦ record { exchange = []; symbol = []; timestamp = 0; failures = 0; not_before = 0 }
]

unfoldable pub is_ready : Time → Dict BucketFlushKey BucketFlushRequest → BucketFlushKey → Bool
is_ready now pending key = not (ltb now (request_at key pending).not_before)

-- the first key whose request is ready, and the order without it
unfoldable pub find_ready :
    Time
    → Dict BucketFlushKey BucketFlushRequest
    → List BucketFlushKey
    → Option (BucketFlushKey × List BucketFlushKey)
find_ready now pending [] = none
find_ready now pending (key ∷ order) =
    let later = find_ready now pending order in
    if is_ready now pending key
    then some (key, order)
    else elim later [ none ↦ none | some (found, rest) ↦ some (found, key ∷ rest) ]

-- the earliest `notBefore` of the order, from the one found so far; zero stands for none
unfoldable pub next_attempt :
    Time → Dict BucketFlushKey BucketFlushRequest → List BucketFlushKey → Time
next_attempt earliest pending [] = earliest
next_attempt earliest pending (key ∷ order) =
    let candidate = (request_at key pending).not_before in
    next_attempt (if nat_eq earliest 0 || ltb candidate earliest then candidate else earliest)
      pending order

pub data Taken : Type 0 where
  ready : BucketFlushRequest → Taken
  wait_for : Duration → Taken

unfoldable pub take_request : BucketFlushWorker → Time → BucketFlushWorker × Taken
take_request w now = elim w.pending [
  | [] ↦ (w, wait_for 0)
  | _ ∷ _ ↦ elim (find_ready now w.pending w.order) [
    | none ↦ (w, wait_for (next_attempt 0 w.pending w.order - now))
    | some (key, order) ↦ (
      record w { pending = delete key w.pending; order = order },
      ready (request_at key w.pending),
    )
  ]
]

abbrev pub later_of : ℕ → ℕ → ℕ
later_of a b = if ltb b a then a else b

unfoldable pub requeue : BucketFlushWorker → BucketFlushRequest → BucketFlushWorker
requeue w r = if not w.accepting then w else elim (lookup (request_key r) w.pending) [
  | none ↦ record w {
    pending = insert (request_key r) r w.pending;
    order = w.order ++ request_key r ∷ [];
  }
  | some old ↦ record w {
    pending =
        insert (request_key r)
          (record old {
            timestamp = later_of r.timestamp old.timestamp;
            failures = later_of r.failures old.failures;
            not_before = later_of r.not_before old.not_before;
          })
          w.pending;
  }
]

-- the part of the loop of `run` behind a flush that failed; `delay` is what `retryWait` returns
unfoldable pub retry_request :
    BucketFlushWorker → BucketFlushRequest → Time → Duration → BucketFlushWorker
retry_request w r now delay =
    requeue w (record r { failures = r.failures + 1; not_before = now + delay })

-- the loop of `bucketFlushRetryDelay`, on the attempts that are left
unfoldable pub doubled_retry : ℕ → Duration → Duration
doubled_retry zero delay = delay
doubled_retry (suc attempts) delay =
    let rest = doubled_retry attempts (delay * 2) in if ltb delay (30 * second) then rest else delay

-- the delay without jitter: 250 milliseconds, doubled up to 30 seconds
unfoldable pub full_retry_delay : ℕ → Duration
full_retry_delay failures =
    let delay = doubled_retry (failures - 1) 250_000_000 in
    if ltb (30 * second) delay then 30 * second else delay

-- `draw n` is `rand.Int64N(n)`
unfoldable pub bucket_flush_retry_delay : (ℕ → ℕ) → ℕ → Duration
bucket_flush_retry_delay draw failures =
    let delay = full_retry_delay failures in delay - delay / 4 + draw (delay / 4 + 1)
