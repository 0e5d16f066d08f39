-- ===== src/Backoff.antt =====
-- reconnectBackoff and websocketDialError of quanttick/exchanges/websocket.go.
use go_quant_tick.Common.{
  ℕ, zero, suc, ◌+◌, ◌-◌, ◌*◌, ◌/◌, ◌≡◌, ◌≤◌, ◌<◌, Bool, true, false, ◌||◌, not, ltb, leb, nat_eq,
  if◌then◌else◌, arith, refl, Bool-cases, inl, inr,
}
use go_quant_tick.Trade.{Duration, second, minute}

abbrev pub websocket_reconnect_max_delay : Duration
websocket_reconnect_max_delay = 30 * second

abbrev pub websocket_stable_session : Duration
websocket_stable_session = minute

pub record ReconnectBackoff : Type 0 where
  pub base : Duration
  pub max : Duration
  pub failures : ℕ

unfoldable pub new_reconnect_backoff : Duration → ReconnectBackoff
new_reconnect_backoff base = record {
  base = base;
  max = if ltb websocket_reconnect_max_delay base then base else websocket_reconnect_max_delay;
  failures = 0;
}

-- The loop of `Next`, on the attempts that are left: a doubling for each, up to the maximum.
unfoldable pub doubled : Duration → ℕ → Duration → Duration
doubled max zero delay = delay
doubled max (suc attempts) delay =
    let rest = doubled max attempts (delay * 2) in
    if not (ltb delay max) then delay else if ltb (max / 2) delay then max else rest

-- the delay before the jitter
unfoldable pub nominal_delay : ReconnectBackoff → Duration
nominal_delay b =
    let delay = doubled b.max (b.failures - 1) b.base in if ltb b.max delay then b.max else delay

-- `Next`; `jitter` is the function of the record, which draws a random number
unfoldable pub next_delay :
    (Duration → Duration → Duration) → ReconnectBackoff → Duration → ReconnectBackoff × Duration
next_delay jitter b session_duration =
    if leb b.base 0
    then (b, 0)
    else (let failures =
          (if leb websocket_stable_session session_duration then 0 else b.failures) + 1 in
        let b' = record b { failures = failures } in (b', jitter (nominal_delay b') b.max))

-- `ClassifyTransient` of a dial error: whether it is transient, and whether that is known.
unfoldable pub classify_transient : ℕ → Bool × Bool
classify_transient status_code =
    if nat_eq status_code 0
    then (false, false)
    else (nat_eq status_code 429 || leb 500 status_code, true)

-- base * 2 ^ n
abbrev pub times_two : ℕ → Duration → Duration
times_two zero delay = delay
times_two (suc n) delay = times_two n (delay * 2)

abbrev pub least : ℕ → ℕ → ℕ
least a b = if ltb b a then b else a

pub times_two-ge : (n : ℕ) (delay : Duration) → delay ≤ times_two n delay
times_two-ge zero delay = omega arith
times_two-ge (suc n) delay = omega (arith, times_two-ge n (delay * 2))

doubled-least :
    (max : Duration) (n : ℕ) (delay : Duration)
    → least (doubled max n delay) max ≡ least (times_two n delay) max
unfolding doubled
doubled-least max zero delay = refl
doubled-least max (suc n) delay =
    ground (arith, doubled-least max n (delay * 2), times_two-ge n (delay * 2))

-- The delay before the n-th retry in a row is twice the one before it, from the base on, up to the
-- maximum: min(base * 2 ^ (n - 1), max).
pub nominal_delay_lem :
    (b : ReconnectBackoff) → nominal_delay b ≡ least (times_two (b.failures - 1) b.base) b.max
unfolding nominal_delay
nominal_delay_lem b = doubled-least b.max (b.failures - 1) b.base

-- With a base above zero, the jitter is given the base doubled for each failure behind the first one,
-- or the maximum, whichever is less, and the maximum. A session of at least a minute starts the count
-- of failures again at one, and any other adds one to it.
pub next_delay_lem :
    (jitter : Duration → Duration → Duration) (b : ReconnectBackoff) (session_duration : Duration)
    → 0 < b.base
    → next_delay jitter b session_duration ≡ (
        let failures = if leb minute session_duration then 1 else b.failures + 1 in
        (
          record b { failures = failures },
          jitter (least (times_two (failures - 1) b.base) b.max) b.max,
        ))
unfolding next_delay
next_delay_lem jitter b session_duration h = elim (Bool-cases (leb minute session_duration)) [
  | inl stable ↦ rw stable (ground (arith, nominal_delay_lem (record b { failures = 1 })))
  | inr short ↦
      rw short (ground (arith, nominal_delay_lem (record b { failures = b.failures + 1 })))
]
