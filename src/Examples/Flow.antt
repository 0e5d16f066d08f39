-- ===== src/Examples/Flow.antt =====
-- pipeline.go, and the limits of exchanges/recovery.go, exchanges/seen_trades.go and
-- exchanges/websocket.go.
use go_quant_tick.Common.{
  ℕ, ◌≤◌, ◌⊎◌, none, some, ◌+◌, ◌-◌, ◌*◌, ◌≡◌, ◌<◌, refl, true, false, [], ◌∷◌, ok, bytes,
  if◌then◌else◌, leb, arith, List,
}
use go_quant_tick.Trade.{trade_key, minute, second}
use go_quant_tick.Merge.Coalesce.{aggregate_trade_events}
use go_quant_tick.Pipeline.{PipelineConfig, new_trade_pipeline}
use go_quant_tick.Pipeline.Session.{
  session, Accepting, raw_in, aggregated_in, session-aggregate_trade_events,
}
use go_quant_tick.Recovery.Limiter.{
  IsWithin, new_request_window_limiter, new_request_window_limiter-IsWithin, reserve,
  reserve-IsWithin,
}
use go_quant_tick.Recovery.Limiter.Window.{reserve_each, recent, reserve_each-within}
use go_quant_tick.Recovery.Seen.{
  IsBounded, new_seen_trade_ids, new_seen_trade_ids-IsBounded, add_seen, add_seen-IsBounded,
  add_seen-add_seen,
}
use go_quant_tick.Recovery.Throttle.{RestThrottle, try_request, try_request-Spaced}
use go_quant_tick.Backoff.{ReconnectBackoff, next_delay, next_delay_lem, least, times_two}
use go_quant_tick.Examples.Decimals.{nat_decimals, buy_1, buy_2, sell_3}

-- raw and aggregated trades have publishers, which accept everything
abbrev config : PipelineConfig ℕ
config = record {
  has_raw = true;
  has_aggregated = true;
  has_significant = false;
  significant_threshold = 500;
  significant_thresholds = [];
  window_duration = minute;
  accepts = λ trace payload. true;
}

ready : Accepting config
ready = record { accepted = λ trace payload. refl; wanted = refl }

session-aggregate_trade_events_example :
    let r =
      session config (buy_1 ∷ buy_2 ∷ sell_3 ∷ []) (trade_key buy_1) (new_trade_pipeline config) in
    (r.1 ≡ ok tt)
    × (aggregate_trade_events (buy_1 ∷ buy_2 ∷ sell_3 ∷ []) ≡ ok (aggregated_in r.0.trace))
    × (raw_in r.0.trace ≡ buy_1 ∷ buy_2 ∷ sell_3 ∷ [])
unfolding trade_key
session-aggregate_trade_events_example =
    session-aggregate_trade_events config ready (trade_key buy_1) (buy_1 ∷ buy_2 ∷ sell_3 ∷ []) refl
      (refl, (refl, (refl, tt)))

-- 40, then 70, which has to wait, and 60
abbrev weights : List (ℕ × ℕ)
weights = (5, 40) ∷ (6, 70) ∷ (7, 60) ∷ []

test_grants : reserve_each (new_request_window_limiter 100 minute) weights ≡ (5, 40) ∷ (7, 60) ∷ []
unfolding reserve_each reserve new_request_window_limiter go_quant_tick.Recovery.Limiter.prune
    go_quant_tick.Recovery.Limiter.attempt_in go_quant_tick.Recovery.Limiter.prune_from
test_grants = refl

reserve_each-within_example :
    recent minute 8 (reserve_each (new_request_window_limiter 100 minute) weights) ≤ 100
unfolding new_request_window_limiter
reserve_each-within_example =
    reserve_each-within (new_request_window_limiter 100 minute) weights 8
      (new_request_window_limiter-IsWithin 100 minute)
      (omega arith, (omega arith, (omega arith, tt)))

add_seen-IsBounded_example : IsBounded (add_seen (new_seen_trade_ids 2) (bytes "BTC") (bytes "1")).0
add_seen-IsBounded_example =
    add_seen-IsBounded (new_seen_trade_ids 2) (bytes "BTC") (bytes "1")
      (new_seen_trade_ids-IsBounded 2)

add_seen-add_seen_example :
    add_seen (add_seen (new_seen_trade_ids 1) (bytes "BTC") (bytes "1")).0 (bytes "BTC") (bytes "1")
    ≡ ((add_seen (new_seen_trade_ids 1) (bytes "BTC") (bytes "1")).0, false)
add_seen-add_seen_example =
    add_seen-add_seen (new_seen_trade_ids 1) (bytes "BTC") (bytes "1")
      (new_seen_trade_ids-IsBounded 1)

abbrev backoff : ReconnectBackoff
backoff = record { base = second; max = 30 * second; failures = 3 }

next_delay_lem_example : next_delay (λ delay maximum. delay) backoff 7 ≡ (
    let failures = if leb minute 7 then 1 else backoff.failures + 1 in
    (record backoff { failures = failures }, least (times_two (failures - 1) second) (30 * second)))
next_delay_lem_example = next_delay_lem (λ delay maximum. delay) backoff 7 (omega arith)

abbrev throttle : RestThrottle
throttle = record { min_interval = 100; last_request = 50; next_request = 0 }

try_request-Spaced_example :
    (((try_request throttle 120).1 ≡ none)
      × (150 ≤ 120)
      × (0 ≤ 120)
      × ((try_request throttle 120).0.last_request ≡ 120))
    ⊎ ((until : ℕ) × ((try_request throttle 120).1 ≡ some until)
        × (120 < until)
        × ((try_request throttle 120).0 ≡ throttle))
try_request-Spaced_example = try_request-Spaced throttle 120
