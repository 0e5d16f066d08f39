-- ===== src/Recovery/Limiter.antt =====
-- requestWindowLimiter of quanttick/exchanges/recovery.go, which limits the weight of the requests
-- in a window. A round of the loop of `reserve` is a step at a time `now`, which grants a
-- reservation or says until when to sleep.
pub mod Window
use go_quant_tick.Common.{
  ℕ, ◌+◌, ◌-◌, ◌≡◌, ◌≤◌, not, List, [], ◌∷◌, ◌++◌, ltb, leb, nat_eq, if◌then◌else◌, arith, refl,
}
use go_quant_tick.Trade.{Time, Duration}

pub record WindowUsage : Type 0 where
  pub id : ℕ
  pub timestamp : Time
  pub weight : ℕ

pub record RequestWindowLimiter : Type 0 where
  pub capacity : ℕ
  pub window : Duration
  pub used : ℕ
  pub next_usage_id : ℕ
  pub usage : List WindowUsage

unfoldable pub new_request_window_limiter : ℕ → Duration → RequestWindowLimiter
new_request_window_limiter capacity window = record {
  capacity = capacity;
  window = window;
  used = 0;
  next_usage_id = 0;
  usage = [];
}

-- The loop of `prune`: `used` goes down with each entry that is not after the cutoff, up to the
-- first one that is. `now - window` is written with the window on the other side.
unfoldable pub prune_from : Duration → Time → ℕ → List WindowUsage → ℕ × List WindowUsage
prune_from window now used [] = (used, [])
prune_from window now used (u ∷ usage) =
    let rest = prune_from window now (used - u.weight) usage in
    if leb (u.timestamp + window) now then rest else (used, u ∷ usage)

unfoldable pub prune : RequestWindowLimiter → Time → RequestWindowLimiter
prune l now =
    let (used, usage) = prune_from l.window now l.used l.usage in
    record l { used = used; usage = usage }

-- the time at which enough weight is released: the loop over `usage`, from the default on
unfoldable pub allowed_from : ℕ → Duration → ℕ → Time → List WindowUsage → Time
allowed_from needed window released default [] = default
allowed_from needed window released default (u ∷ usage) =
    let rest = allowed_from needed window (released + u.weight) default usage in
    if leb needed (released + u.weight) then u.timestamp + window else rest

pub data Attempt : Type 0 where
  -- the zero reservation, for a weight that is not positive
  free : Attempt
  exceeds_capacity : Attempt
  granted : ℕ → Attempt
  sleep_until : Time → Attempt

-- one round of the loop of `reserve` behind `prune`
unfoldable pub attempt_in : RequestWindowLimiter → Time → ℕ → RequestWindowLimiter × Attempt
attempt_in l now weight =
    if leb (l.used + weight) l.capacity
    then (
      record l {
        used = l.used + weight;
        next_usage_id = l.next_usage_id + 1;
        usage =
            l.usage ++ record { id = l.next_usage_id + 1; timestamp = now; weight = weight } ∷ [];
      },
      granted (l.next_usage_id + 1),
    )
    else (
      l,
      sleep_until (allowed_from (l.used + weight - l.capacity) l.window 0 (now + l.window) l.usage),
    )

unfoldable pub reserve : RequestWindowLimiter → Time → ℕ → RequestWindowLimiter × Attempt
reserve l now weight =
    if leb weight 0
    then (l, free)
    else if ltb l.capacity weight
    then (l, exceeds_capacity)
    else attempt_in (prune l now) now weight

-- the loop of `refund`: what is taken from `used`, and the entries
unfoldable pub refund_from : ℕ → ℕ → List WindowUsage → ℕ × List WindowUsage
refund_from usage_id weight [] = (0, [])
refund_from usage_id weight (u ∷ usage) =
    let rest = refund_from usage_id weight usage in
    let taken = if ltb u.weight weight then u.weight else weight in
    if not (nat_eq u.id usage_id)
    then (rest.0, u ∷ rest.1)
    else if nat_eq (u.weight - taken) 0
    then (taken, usage)
    else (taken, record u { weight = u.weight - taken } ∷ usage)

unfoldable pub refund : RequestWindowLimiter → Time → ℕ → ℕ → RequestWindowLimiter
refund l now usage_id weight =
    if leb weight 0
    then l
    else (let pruned = prune l now in
        let r = refund_from usage_id weight pruned.usage in
        record pruned { used = pruned.used - r.0; usage = r.1 })

-- the weight of all entries
abbrev pub total : List WindowUsage → ℕ
total [] = 0
total (u ∷ usage) = u.weight + total usage

total-append : (xs ys : List WindowUsage) → total (xs ++ ys) ≡ total xs + total ys
total-append [] ys = omega arith
total-append (x ∷ xs) ys = omega (arith, total-append xs ys)

-- `used` is the weight of the entries, and within the capacity.
pub record IsWithin (l : RequestWindowLimiter) : Type 0 where
  pub counted : l.used ≡ total l.usage
  pub bounded : l.used ≤ l.capacity

prune_from-total :
    (window : Duration) (now : Time) (used : ℕ) (usage : List WindowUsage)
    → used ≡ total usage
    → ((prune_from window now used usage).0 ≡ total (prune_from window now used usage).1)
      × ((prune_from window now used usage).0 ≤ used)
unfolding prune_from
prune_from-total window now used [] h = (h, omega arith)
prune_from-total window now used (u ∷ usage) h =
    ground (arith, prune_from-total window now (used - u.weight) usage)

pub prune-IsWithin : (l : RequestWindowLimiter) (now : Time) → IsWithin l → IsWithin (prune l now)
unfolding prune
prune-IsWithin l now v = ground (arith, prune_from-total l.window now l.used l.usage)

refund_from-total :
    (usage_id weight : ℕ) (usage : List WindowUsage)
    → total usage
      ≡ (refund_from usage_id weight usage).0 + total (refund_from usage_id weight usage).1
unfolding refund_from
refund_from-total usage_id weight [] = omega arith
refund_from-total usage_id weight (u ∷ usage) =
    ground (arith, refund_from-total usage_id weight usage)

-- A reservation, whatever comes of it, leaves a limiter that counts the weight of its entries and
-- stays within its capacity as such a limiter.
pub reserve-IsWithin :
    (l : RequestWindowLimiter) (now : Time) (weight : ℕ)
    → IsWithin l
    → IsWithin (reserve l now weight).0
unfolding reserve attempt_in
reserve-IsWithin l now weight v = ground (
  arith,
  prune-IsWithin l now v,
  total-append (prune l now).usage
      (record { id = (prune l now).next_usage_id + 1; timestamp = now; weight = weight } ∷ []),
)

-- A refund leaves a limiter that counts the weight of its entries and stays within its capacity as
-- such a limiter.
pub refund-IsWithin :
    (l : RequestWindowLimiter) (now : Time) (usage_id weight : ℕ)
    → IsWithin l
    → IsWithin (refund l now usage_id weight)
unfolding refund
refund-IsWithin l now usage_id weight v =
    ground (arith, prune-IsWithin l now v, refund_from-total usage_id weight (prune l now).usage)

pub new_request_window_limiter-IsWithin :
    (capacity : ℕ) (window : Duration) → IsWithin (new_request_window_limiter capacity window)
unfolding new_request_window_limiter
new_request_window_limiter-IsWithin capacity window = record {
  counted = refl;
  bounded = omega arith;
}
