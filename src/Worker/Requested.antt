-- ===== src/Worker/Requested.antt =====
-- Request of cmd/quanttick/bucket_flush_worker.go: what it leaves for its market and for the others.
use go_quant_tick.Common.{
  ◌≡◌, Bool, true, false, Option, none, some, Text, ltb, lookup, lookup-insert, if◌then◌else◌,
  arith, refl, Bool-cases, Option-cases, inl, inr, ◌⊎◌, ◌==◌, subst, sym,
}
use go_quant_tick.Trade.{Time}
use go_quant_tick.Worker.{
  BucketFlushRequest, BucketFlushKey, BucketFlushKey_Eq, BucketFlushWorker, request_key, enqueue,
  request_flush, later_of, flush_key_eq_iff,
}

abbrev new_request : Text → Text → Time → BucketFlushRequest
new_request exchange symbol timestamp = record {
  exchange = exchange;
  symbol = symbol;
  timestamp = timestamp;
  failures = 0;
  not_before = 0;
}

abbrev key_for : Text → Text → BucketFlushKey
key_for exchange symbol = record { exchange = exchange; symbol = symbol }

-- What a market has behind a request: one that may be tried at once, where it had none, and otherwise
-- the later of the two times, with the failures and the time of the next attempt that were there.
abbrev pub Coalesced : Time → Option BucketFlushRequest → BucketFlushRequest → Type 0
Coalesced timestamp none market =
    (market.timestamp ≡ timestamp) × (market.failures ≡ 0) × (market.not_before ≡ 0)
Coalesced timestamp (some old) market =
    (market.timestamp ≡ later_of timestamp old.timestamp)
    × (market.failures ≡ old.failures)
    × (market.not_before ≡ old.not_before)

-- What a request leaves: its market has one, that of no other market changes, and the loop is woken
-- where the market had none.
pub record Requested (w : BucketFlushWorker) (exchange symbol : Text) (timestamp : Time)
    (after : BucketFlushWorker × Bool) : Type 0 where
  pub market : BucketFlushRequest
  pub is_coalesced : Coalesced timestamp (lookup (key_for exchange symbol) w.pending) market
  pub pending :
      (j : BucketFlushKey)
      → lookup j after.0.pending
        ≡ (if key_for exchange symbol == j then some market else lookup j w.pending)
  pub woken :
      after.1
      ≡ (elim (lookup (key_for exchange symbol) w.pending) [ none ↦ true | some old ↦ false ])
  pub accepts : after.0.accepting ≡ w.accepting

enqueue-Requested :
    (w : BucketFlushWorker) (exchange symbol : Text) (timestamp : Time)
    → Requested w exchange symbol timestamp (enqueue w (new_request exchange symbol timestamp))
unfolding enqueue request_key
enqueue-Requested w exchange symbol timestamp =
    let key = key_for exchange symbol in
    elim (Option-cases (lookup key w.pending)) [
      | inl e ↦
          rw (e, enqueue)
            (record {
              market = new_request exchange symbol timestamp;
              is_coalesced = rw e (refl, refl, refl);
              pending = λ j. lookup-insert key j (new_request exchange symbol timestamp) w.pending;
              woken = rw e refl;
              accepts = refl;
            })
      | inr (old, e) ↦ elim (Bool-cases (ltb old.timestamp timestamp)) [
        | inl newer ↦
            rw (e, enqueue, newer)
              (record {
                market = record (new_request exchange symbol timestamp) {
                  failures = old.failures;
                  not_before = old.not_before;
                };
                is_coalesced = rw e (ground arith, refl, refl);
                pending = λ j. lookup-insert key j _ w.pending;
                woken = rw e refl;
                accepts = refl;
              })
        | inr older ↦
            rw (e, enqueue, older)
              (record {
                market = old;
                is_coalesced = rw e (ground arith, refl, refl);
                pending = λ j. ground (arith, flush_key_eq_iff key j, e);
                woken = rw e refl;
                accepts = refl;
              })
      ]
    ]

-- A worker that is closed is left as it was and not woken. Behind a request to any other worker, the
-- market has one pending: with the time of the request, no failures and no time to wait for, where it
-- had none, and otherwise with the later of the two times and with the failures and the time of the
-- next attempt that were there, so that it is not tried earlier. No other market's request changes,
-- and the loop is woken where the market had none.
pub request_flush-Requested :
    (w : BucketFlushWorker) (exchange symbol : Text) (timestamp : Time)
    → ((w.accepting ≡ false) × (request_flush w exchange symbol timestamp ≡ (w, false)))
      ⊎ ((w.accepting ≡ true)
          × Requested w exchange symbol timestamp (request_flush w exchange symbol timestamp))
unfolding request_flush
request_flush-Requested w exchange symbol timestamp = elim (Bool-cases w.accepting) [
  | inr closed ↦ inl (closed, rw closed refl)
  | inl accepts ↦
      let same : request_flush w exchange symbol timestamp
          ≡ enqueue w (new_request exchange symbol timestamp) =
        ground arith in
      inr (
        accepts,
        subst (Requested w exchange symbol timestamp) (sym same)
            (enqueue-Requested w exchange symbol timestamp),
      )
]
