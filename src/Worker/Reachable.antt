-- ===== src/Worker/Reachable.antt =====
-- What the worker of cmd/quanttick/bucket_flush_worker.go can get to: requests come while its loop
-- takes one, flushes, and requeues it, in any order.
use go_quant_tick.Common.{Text}
use go_quant_tick.Trade.{Time, Duration}
use go_quant_tick.Worker.{
  BucketFlushRequest, BucketFlushWorker, new_bucket_flush_worker, request_flush, take_request,
  retry_request, stop_accepting,
}
use go_quant_tick.Worker.Queued.{
  IsQueued, new_bucket_flush_worker-IsQueued, request_flush-IsQueued, requeue-IsQueued,
}
use go_quant_tick.Worker.Taking.{take_request-IsQueued}

-- Each step changes the queue under the lock of the worker.
pub data Step (w : BucketFlushWorker) : BucketFlushWorker → Type 0 where
  requests :
      (exchange symbol : Text)
      → (timestamp : Time) → Step w (request_flush w exchange symbol timestamp).0
  takes : (now : Time) → Step w (take_request w now).0
  retries :
      (r : BucketFlushRequest)
      → (now : Time) → (delay : Duration) → Step w (retry_request w r now delay)
  stops : Step w (stop_accepting w)

pub data Reachable : BucketFlushWorker → Type 0 where
  starts : Reachable new_bucket_flush_worker
  after_step : {w w' : BucketFlushWorker} → Reachable w → Step w w' → Reachable w'

Step-IsQueued : (w w' : BucketFlushWorker) → Step w w' → IsQueued w → IsQueued w'
unfolding retry_request stop_accepting
Step-IsQueued w _ (requests exchange symbol timestamp) q =
    request_flush-IsQueued w exchange symbol timestamp q
Step-IsQueued w _ (takes now) q = take_request-IsQueued w now q
Step-IsQueued w _ (retries r now delay) q = requeue-IsQueued w _ q
Step-IsQueued w _ stops q = record { once = q.once; agrees = q.agrees }

-- Whatever requests come, and in whatever order they are taken, come back, and the worker is closed,
-- its queue holds exactly the markets with a pending request, each once.
pub Reachable-IsQueued : (w : BucketFlushWorker) → Reachable w → IsQueued w
Reachable-IsQueued _ starts = new_bucket_flush_worker-IsQueued
Reachable-IsQueued _ (after_step {w} {w'} reachable step) =
    Step-IsQueued w w' step (Reachable-IsQueued w reachable)
