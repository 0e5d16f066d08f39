-- ===== src/Examples/Queue.antt =====
-- cmd/quanttick/bucket_flush_worker.go and cmd/quanttick/main.go.
use go_quant_tick.Trade.{TradeEvent, exchange_symbol_key}
use go_quant_tick.Command.{
  update_flush_watermark, watermark_at, later, update_each, latest, update_each-latest, split_from,
  parse_csv,
}
use go_quant_tick.Examples.Decimals.{buy_1}
use go_quant_tick.Common.{
  ℕ, ◌-◌, ◌/◌, ◌≤◌, arith, Text, List, none, cut, text_Eq, length, if◌then◌else◌, ◌⊎◌, false, ◌==◌,
  ◌≡◌, refl, true, [], ◌∷◌, some, bytes, lookup, insert,
}
use go_quant_tick.Worker.{
  BucketFlushRequest, BucketFlushKey, BucketFlushKey_Eq, BucketFlushWorker, new_bucket_flush_worker,
  request_flush, request_key, enqueue, retry_request, bucket_flush_retry_delay, take_request, Taken,
}
use go_quant_tick.Worker.Queued.{IsQueued, new_bucket_flush_worker-IsQueued, request_flush-IsQueued}
use go_quant_tick.Worker.Requested.{Requested, request_flush-Requested}
use go_quant_tick.Worker.Reachable.{
  Step, requests, retries, Reachable, starts, after_step, Reachable-IsQueued,
}
use go_quant_tick.Worker.Delay.{doubled_up_to, bucket_flush_retry_delay-within}
use go_quant_tick.Worker.Taking.{TakenFrom, take_request-TakenFrom}

abbrev request : BucketFlushRequest
request = record {
  exchange = bytes "bybit";
  symbol = bytes "BTCUSD";
  timestamp = 5;
  failures = 0;
  not_before = 0;
}

abbrev waiting : BucketFlushWorker
waiting = record {
  pending = (request_key request, request) ∷ [];
  order = request_key request ∷ [];
  accepting = true;
}

queued : BucketFlushWorker
queued = (request_flush new_bucket_flush_worker (bytes "bybit") (bytes "BTCUSD") 5).0

queued-waiting : queued ≡ waiting
unfolding queued request_flush enqueue request_key new_bucket_flush_worker lookup insert
queued-waiting = refl

queued-IsQueued : IsQueued queued
unfolding queued
queued-IsQueued =
    request_flush-IsQueued new_bucket_flush_worker (bytes "bybit") (bytes "BTCUSD") 5
      new_bucket_flush_worker-IsQueued

-- a later request for a market that has one
request_flush-Requested_example :
    ((queued.accepting ≡ false)
      × (request_flush queued (bytes "bybit") (bytes "BTCUSD") 8 ≡ (queued, false)))
    ⊎ ((queued.accepting ≡ true)
        × Requested queued
            (bytes "bybit")
            (bytes "BTCUSD")
            8
            (request_flush queued (bytes "bybit") (bytes "BTCUSD") 8))
request_flush-Requested_example = request_flush-Requested queued (bytes "bybit") (bytes "BTCUSD") 8

-- one request, taken at the time 9, and tried again at the time 12
abbrev reached : BucketFlushWorker
reached = retry_request (take_request queued 9).0 request 9 3

reached-Reachable : Reachable reached
unfolding queued
reached-Reachable =
    after_step
      (after_step (after_step starts (requests (bytes "bybit") (bytes "BTCUSD") 5)) (Step.takes 9))
      (retries request 9 3)

Reachable-IsQueued_example : IsQueued reached
Reachable-IsQueued_example = Reachable-IsQueued reached reached-Reachable

abbrev half : ℕ → ℕ
half bound = bound / 2

bucket_flush_retry_delay-within_example :
    (doubled_up_to 3 - doubled_up_to 3 / 4 ≤ bucket_flush_retry_delay half 3)
    × (bucket_flush_retry_delay half 3 ≤ doubled_up_to 3)
bucket_flush_retry_delay-within_example =
    bucket_flush_retry_delay-within half 3 (λ bound h. omega arith)

takes : (take_request queued 9).1 ≡ Taken.ready request
unfolding take_request queued request_flush new_bucket_flush_worker enqueue lookup insert
    go_quant_tick.Worker.find_ready go_quant_tick.Worker.is_ready go_quant_tick.Worker.request_at
    go_quant_tick.Worker.flush_key_eq request_key
takes = refl

take_request-TakenFrom_example : TakenFrom queued 9 (take_request queued 9).0 request
take_request-TakenFrom_example = take_request-TakenFrom queued 9 request queued-IsQueued takes

abbrev late_trade : TradeEvent ℕ
late_trade = record buy_1 { timestamp = 3000 }

abbrev watermarks : List (Text × ℕ)
watermarks = (bytes "binance:BTCUSDT", 2000) ∷ []

-- two trades that come out of order, and the first one again
update_each-latest_example :
    (watermark_at (bytes "binance:BTCUSDT") (update_each watermarks (late_trade ∷ buy_1 ∷ []))
      ≡ latest (bytes "binance:BTCUSDT") 2000 (late_trade ∷ buy_1 ∷ []))
    × ((update_flush_watermark (update_each watermarks (late_trade ∷ buy_1 ∷ [])) buy_1).1 ≡ (
        let market = exchange_symbol_key buy_1.exchange buy_1.symbol in
        later (latest market (watermark_at market watermarks) (late_trade ∷ buy_1 ∷ [])) 1000))
unfolding lookup
update_each-latest_example =
    update_each-latest watermarks (late_trade ∷ buy_1 ∷ []) buy_1 (bytes "binance:BTCUSDT")

parses : parse_csv (bytes " BTC,, ETH=5 ") ≡ bytes "BTC" ∷ bytes "ETH=5" ∷ []
unfolding parse_csv go_quant_tick.Command.keep_parts split_from cut go_quant_tick.Common.trim_space
parses = refl
