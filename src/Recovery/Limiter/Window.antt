-- ===== src/Recovery/Limiter/Window.antt =====
-- What requestWindowLimiter of quanttick/exchanges/recovery.go is for: the weight that it grants in
-- a window, against its capacity.
use go_quant_tick.Common.{
  ℕ, ◌+◌, ◌-◌, ◌≡◌, ◌≤◌, List, [], ◌∷◌, ◌++◌, ltb, leb, if◌then◌else◌, All, arith, refl, Bool-cases,
  inl, inr,
}
use go_quant_tick.Trade.{Time, Duration}
use go_quant_tick.Recovery.Limiter.{
  WindowUsage, RequestWindowLimiter, prune_from, prune, Attempt, free, exceeds_capacity, granted,
  sleep_until, attempt_in, reserve, total, IsWithin, reserve-IsWithin,
}

-- what is granted at the time `now` for the weight `weight`, in front of later grants
grant : Time → ℕ → Attempt → List (Time × ℕ) → List (Time × ℕ)
grant now weight free grants = grants
grant now weight exceeds_capacity grants = grants
grant now weight (granted id) grants = (now, weight) ∷ grants
grant now weight (sleep_until at) grants = grants

-- What is granted of some attempts, each a time and a weight, one after the other.
unfoldable pub reserve_each : RequestWindowLimiter → List (Time × ℕ) → List (Time × ℕ)
unfolding grant
reserve_each l [] = []
reserve_each l ((now, weight) ∷ attempts) =
    let (l', attempt) = reserve l now weight in grant now weight attempt (reserve_each l' attempts)

-- The weight of the grants whose window has not ended.
abbrev pub recent : Duration → Time → List (Time × ℕ) → ℕ
recent window now [] = 0
recent window now ((at, weight) ∷ grants) =
    (if leb (at + window) now then 0 else weight) + recent window now grants

abbrev recent_usage : Duration → Time → List WindowUsage → ℕ
recent_usage window now [] = 0
recent_usage window now (u ∷ usage) =
    (if leb (u.timestamp + window) now then 0 else u.weight) + recent_usage window now usage

recent_usage-total :
    (window : Duration) (now : Time) (usage : List WindowUsage)
    → recent_usage window now usage ≤ total usage
recent_usage-total window now [] = omega arith
recent_usage-total window now (u ∷ usage) = ground (arith, recent_usage-total window now usage)

recent_usage-append :
    (window : Duration) (now : Time) (xs ys : List WindowUsage)
    → recent_usage window now (xs ++ ys) ≡ recent_usage window now xs + recent_usage window now ys
recent_usage-append window now [] ys = omega arith
recent_usage-append window now (x ∷ xs) ys = ground (arith, recent_usage-append window now xs ys)

-- Pruning at a time takes away nothing that is recent then or later.
recent_usage-prune_from :
    (window : Duration) (at now : Time) (used : ℕ) (usage : List WindowUsage)
    → at ≤ now
    → recent_usage window now usage ≡ recent_usage window now (prune_from window at used usage).1
unfolding prune_from
recent_usage-prune_from window at now used [] h = refl
recent_usage-prune_from window at now used (u ∷ usage) h =
    ground (arith, recent_usage-prune_from window at now (used - u.weight) usage h)

-- What an attempt leaves: the same window and capacity, and what was recent with what is granted.
record Reserved (l : RequestWindowLimiter) (at : Time) (weight : ℕ) (now : Time)
    (after : RequestWindowLimiter × Attempt) : Type 0 where
  same_window : after.0.window ≡ l.window
  same_capacity : after.0.capacity ≡ l.capacity
  kept :
      (grants : List (Time × ℕ))
      → recent_usage l.window now l.usage + recent l.window now (grant at weight after.1 grants)
        ≤ recent_usage l.window now after.0.usage + recent l.window now grants

attempt_in-Reserved :
    (l : RequestWindowLimiter) (at : Time) (weight : ℕ) (now : Time)
    → at ≤ now
    → Reserved l at weight now (attempt_in (prune l at) at weight)
unfolding attempt_in prune grant
attempt_in-Reserved l at weight now h =
    let pruned = prune_from l.window at l.used l.usage in
    let same = recent_usage-prune_from l.window at now l.used l.usage h in
    elim (Bool-cases (leb (pruned.0 + weight) l.capacity)) [
      | inr over ↦ rw over (record {
        same_window = refl;
        same_capacity = refl;
        kept = λ grants. omega (arith, same);
      })
      | inl within ↦ rw within (record {
        same_window = refl;
        same_capacity = refl;
        kept = λ grants. omega (
          arith,
          same,
          recent_usage-append l.window now pruned.1
              (record { id = l.next_usage_id + 1; timestamp = at; weight = weight } ∷ []),
        );
      })
    ]

reserve-Reserved :
    (l : RequestWindowLimiter) (at : Time) (weight : ℕ) (now : Time)
    → at ≤ now
    → Reserved l at weight now (reserve l at weight)
unfolding reserve attempt_in prune grant
reserve-Reserved l at weight now h = elim (Bool-cases (leb weight 0)) [
  | inl none_asked ↦
      rw none_asked
        (record { same_window = refl; same_capacity = refl; kept = λ grants. omega arith })
  | inr asked ↦ elim (Bool-cases (ltb l.capacity weight)) [
    | inl too_much ↦
        rw (asked, too_much)
          (record { same_window = refl; same_capacity = refl; kept = λ grants. omega arith })
    | inr fits ↦ rw (asked, fits) (attempt_in-Reserved l at weight now h)
  ]
]

within :
    (l : RequestWindowLimiter) (attempts : List (Time × ℕ)) (now : Time)
    → IsWithin l
    → All (λ attempt. attempt.0 ≤ now) attempts
    → recent_usage l.window now l.usage + recent l.window now (reserve_each l attempts) ≤ l.capacity
unfolding reserve_each
within l [] now v h = omega (arith, recent_usage-total l.window now l.usage, v.counted, v.bounded)
within l ((at, weight) ∷ attempts) now v h =
    let after = reserve l at weight in
    let r = reserve-Reserved l at weight now h.0 in
    let later = within after.0 attempts now (reserve-IsWithin l at weight v) h.1 in
    let later' : recent_usage l.window now after.0.usage
          + recent l.window now (reserve_each after.0 attempts)
        ≤ l.capacity =
      rw (r.same_window, r.same_capacity) at later in
    omega (arith, r.kept (reserve_each after.0 attempts))

-- Where the entries of a limiter count its used weight, which is within its capacity, and whatever
-- weights are asked for up to a time `now`, without refunds, the weight of what is granted in the
-- window that ends then is within the capacity.
pub reserve_each-within :
    (l : RequestWindowLimiter) (attempts : List (Time × ℕ)) (now : Time)
    → IsWithin l
    → All (λ attempt. attempt.0 ≤ now) attempts
    → recent l.window now (reserve_each l attempts) ≤ l.capacity
reserve_each-within l attempts now v h = omega (arith, within l attempts now v h)
