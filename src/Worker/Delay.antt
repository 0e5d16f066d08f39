-- ===== src/Worker/Delay.antt =====
-- bucketFlushRetryDelay of cmd/quanttick/bucket_flush_worker.go.
use go_quant_tick.Common.{ℕ, zero, suc, ◌+◌, ◌-◌, ◌*◌, ◌/◌, ◌≡◌, ◌≤◌, ◌<◌, arith, refl}
use go_quant_tick.Trade.{Duration, second}
use go_quant_tick.Backoff.{times_two, times_two-ge, least}
use go_quant_tick.Worker.{doubled_retry, full_retry_delay, bucket_flush_retry_delay}

-- A quarter of a second, doubled for each failure behind the first one, or 30 seconds, whichever is
-- less.
abbrev pub doubled_up_to : ℕ → Duration
doubled_up_to failures = least (times_two (failures - 1) 250_000_000) (30 * second)

doubled_retry-least :
    (n : ℕ) (delay : Duration)
    → least (doubled_retry n delay) (30 * second) ≡ least (times_two n delay) (30 * second)
unfolding doubled_retry
doubled_retry-least zero delay = refl
doubled_retry-least (suc n) delay =
    ground (arith, doubled_retry-least n (delay * 2), times_two-ge n (delay * 2))

full_retry_delay_lem : (failures : ℕ) → full_retry_delay failures ≡ doubled_up_to failures
unfolding full_retry_delay
full_retry_delay_lem failures = doubled_retry-least (failures - 1) 250_000_000

within_quarter :
    (draw : ℕ → ℕ) (full : Duration)
    → draw (full / 4 + 1) < full / 4 + 1
    → (full - full / 4 ≤ full - full / 4 + draw (full / 4 + 1))
      × (full - full / 4 + draw (full / 4 + 1) ≤ full)
within_quarter draw full h = (omega arith, omega arith)

-- Where the random number below a bound is below it, the delay before a flush is tried again lies
-- between three quarters of a nominal delay, rounded up, and that delay: a quarter of a second, doubled
-- for each failure behind the first one, up to 30 seconds.
pub bucket_flush_retry_delay-within :
    (draw : ℕ → ℕ) (failures : ℕ)
    → ((bound : ℕ) → 0 < bound → draw bound < bound)
    → (doubled_up_to failures - doubled_up_to failures / 4 ≤ bucket_flush_retry_delay draw failures)
      × (bucket_flush_retry_delay draw failures ≤ doubled_up_to failures)
unfolding bucket_flush_retry_delay
bucket_flush_retry_delay-within draw failures h = rw⁻¹ (full_retry_delay_lem failures) (
    within_quarter draw (full_retry_delay failures)
      (h (full_retry_delay failures / 4 + 1) (omega arith)))
