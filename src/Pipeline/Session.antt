-- ===== src/Pipeline/Session.antt =====
-- The trades of one market through Handle of quanttick/pipeline.go, and then through the flush of
-- its key, where every publisher accepts what it is given and no significant trades are published.
use go_quant_tick.Common.{
  ◌≡◌, true, false, List, [], ◌∷◌, ◌++◌, Text, text_Eq, none, some, ok, if◌then◌else◌, refl, sym,
  ap, subst, ◌∙◌, append_assoc, append-nil, All, Bool-cases, Result-cases, inl, inr, map, lookup,
  arith,
}
use go_quant_tick.Trade.{DecimalOps, TradeEvent, trade_key}
use go_quant_tick.Aggregator.{TradeAggregator, new_trade_aggregator, add, flush, pending}
use go_quant_tick.Merge.Coalesce.{aggregate_trade_events}
use go_quant_tick.Merge.Coalesce.Runs.{samples, aggregate_trade_events-samples}
use go_quant_tick.Merge.Streaming.{collect, collect-eq-aggregate_trade_events}
use go_quant_tick.Pipeline.{
  PipelineConfig, TradePipeline, Handled, Published, and_then, new_trade_pipeline, publish,
  publish_raw, publish_aggregated, add_significant, handle_samples, handle_aggregated, handle,
  flush_aggregated_trade_key,
}

-- What the publisher of aggregated trades, and that of raw trades, was given.
abbrev pub aggregated_in : {D : Type 0} → List (Published D) → List (TradeEvent D)
aggregated_in [] = []
aggregated_in (Published.raw t ∷ trace) = aggregated_in trace
aggregated_in (Published.aggregated t ∷ trace) = t ∷ aggregated_in trace
aggregated_in (Published.significant s ∷ trace) = aggregated_in trace

abbrev pub raw_in : {D : Type 0} → List (Published D) → List (TradeEvent D)
raw_in [] = []
raw_in (Published.raw t ∷ trace) = t ∷ raw_in trace
raw_in (Published.aggregated t ∷ trace) = raw_in trace
raw_in (Published.significant s ∷ trace) = raw_in trace

module _ {D : Type 0} where
  aggregated_in-append :
      (xs ys : List (Published D)) → aggregated_in (xs ++ ys) ≡ aggregated_in xs ++ aggregated_in ys
  aggregated_in-append [] ys = refl
  aggregated_in-append (Published.raw t ∷ xs) ys = aggregated_in-append xs ys
  aggregated_in-append (Published.aggregated t ∷ xs) ys = ap (◌∷◌ t) (aggregated_in-append xs ys)
  aggregated_in-append (Published.significant s ∷ xs) ys = aggregated_in-append xs ys

  raw_in-append : (xs ys : List (Published D)) → raw_in (xs ++ ys) ≡ raw_in xs ++ raw_in ys
  raw_in-append [] ys = refl
  raw_in-append (Published.raw t ∷ xs) ys = ap (◌∷◌ t) (raw_in-append xs ys)
  raw_in-append (Published.aggregated t ∷ xs) ys = raw_in-append xs ys
  raw_in-append (Published.significant s ∷ xs) ys = raw_in-append xs ys

  aggregated_in-map : (l : List (TradeEvent D)) → aggregated_in (map Published.aggregated l) ≡ l
  aggregated_in-map [] = refl
  aggregated_in-map (t ∷ l) = ap (◌∷◌ t) (aggregated_in-map l)

  raw_in-map : (l : List (TradeEvent D)) → raw_in (map Published.aggregated l) ≡ []
  raw_in-map [] = refl
  raw_in-map (t ∷ l) = raw_in-map l

module _ {D : Type 0} ⦃ops : DecimalOps D⦄ (config : PipelineConfig D) where
  -- Handle for each trade, and the flush of the key at the end.
  unfoldable pub session : List (TradeEvent D) → Text → TradePipeline D → Handled D
  session [] key p = flush_aggregated_trade_key config key p
  session (t ∷ ts) key p = and_then (handle config t p) (session ts key)

  -- a pipeline without a significant aggregator
  abbrev state : TradeAggregator D → List (Published D) → TradePipeline D
  state a trace = record { trade_aggregator = some a; significant_aggregator = none; trace = trace }

  -- Every payload is accepted, and aggregated trades have a publisher.
  pub record Accepting : Type 0 where
    pub accepted :
        (trace : List (Published D)) (payload : Published D) → config.accepts trace payload ≡ true
    pub wanted : config.has_aggregated ≡ true

  module _ (ready : Accepting) where
    handle_samples_lem :
        (a : TradeAggregator D) (out : List (TradeEvent D)) (trace : List (Published D))
        → handle_samples config out (state a trace)
          ≡ (state a (trace ++ map Published.aggregated out), ok tt)
    unfolding handle_samples publish_aggregated add_significant publish
    handle_samples_lem a [] trace = rw (append-nil trace) refl
    handle_samples_lem a (s ∷ out) trace =
        rw (ready.wanted, ready.accepted trace (Published.aggregated s))
          (handle_samples_lem a out (trace ++ Published.aggregated s ∷ [])
            ∙ rw (append_assoc trace (Published.aggregated s ∷ []) (map Published.aggregated out))
                refl)

    -- the trace behind the raw publisher
    abbrev with_raw : TradeEvent D → List (Published D) → List (Published D)
    with_raw t trace = trace ++ (if config.has_raw then Published.raw t ∷ [] else [])

    publish_raw_lem :
        (a : TradeAggregator D) (t : TradeEvent D) (trace : List (Published D))
        → publish_raw config t (state a trace) ≡ (state a (with_raw t trace), ok tt)
    unfolding publish_raw publish
    publish_raw_lem a t trace = elim (Bool-cases config.has_raw) [
      | inl e ↦ rw (e, ready.accepted trace (Published.raw t)) refl
      | inr e ↦ rw (e, append-nil trace) refl
    ]

    handle_aggregated_lem :
        (a : TradeAggregator D) (t : TradeEvent D) (out : List (TradeEvent D))
        (trace : List (Published D))
        → (add a t).1 ≡ ok out
        → handle_aggregated config t (state a trace)
          ≡ (state (add a t).0 (trace ++ map Published.aggregated out), ok tt)
    unfolding handle_aggregated
    handle_aggregated_lem a t out trace h =
        rw (h, handle_aggregated) (handle_samples_lem (add a t).0 out trace)

    handle_lem :
        (a : TradeAggregator D) (t : TradeEvent D) (out : List (TradeEvent D))
        (trace : List (Published D))
        → (add a t).1 ≡ ok out
        → handle config t (state a trace)
          ≡ (state (add a t).0 (with_raw t trace ++ map Published.aggregated out), ok tt)
    unfolding handle
    handle_lem a t out trace h =
        ap (λ r. and_then r (handle_aggregated config t)) (publish_raw_lem a t trace)
        ∙ handle_aggregated_lem a t out (with_raw t trace) h

    flush_lem :
        (a : TradeAggregator D) (key : Text) (out : List (TradeEvent D))
        (trace : List (Published D))
        → (flush a key).1 ≡ ok out
        → flush_aggregated_trade_key config key (state a trace)
          ≡ (state (flush a key).0 (trace ++ map Published.aggregated out), ok tt)
    unfolding flush_aggregated_trade_key
    flush_lem a key out trace h =
        rw (h, flush_aggregated_trade_key) (handle_samples_lem (flush a key).0 out trace)

    -- A session that succeeded, with what it published behind the trace before it.
    record Publishes (trace : List (Published D)) (raws out : List (TradeEvent D)) (r : Handled D)
        : Type 0 where
      succeeds : r.1 ≡ ok tt
      aggregated : aggregated_in r.0.trace ≡ aggregated_in trace ++ out
      raw : raw_in r.0.trace ≡ raw_in trace ++ raws

    abbrev raws_of : List (TradeEvent D) → List (TradeEvent D)
    raws_of ts = if config.has_raw then ts else []

    no_raws : raws_of [] ≡ []
    no_raws = elim (Bool-cases config.has_raw) [ inl e ↦ rw e refl | inr e ↦ rw e refl ]

    aggregated_in-step :
        (t : TradeEvent D) (o more : List (TradeEvent D)) (trace : List (Published D))
        → aggregated_in (with_raw t trace ++ map Published.aggregated o) ++ more
          ≡ aggregated_in trace ++ (o ++ more)
    aggregated_in-step t o more trace =
        ap (λ l. l ++ more)
          (aggregated_in-append (with_raw t trace) (map Published.aggregated o)
            ∙ rw (aggregated_in-map o) (
                ap (λ l. l ++ o)
                  (elim (Bool-cases config.has_raw) [
                    | inl e ↦ rw e (aggregated_in-append trace _ ∙ append-nil _)
                    | inr e ↦ rw e (aggregated_in-append trace _ ∙ append-nil _)
                  ])))
        ∙ append_assoc (aggregated_in trace) o more

    raw_in-step :
        (t : TradeEvent D) (o ts : List (TradeEvent D)) (trace : List (Published D))
        → raw_in (with_raw t trace ++ map Published.aggregated o) ++ raws_of ts
          ≡ raw_in trace ++ raws_of (t ∷ ts)
    raw_in-step t o ts trace =
        let e : raw_in (with_raw t trace ++ map Published.aggregated o)
            ≡ raw_in (with_raw t trace) =
          raw_in-append (with_raw t trace) (map Published.aggregated o)
          ∙ ap (◌++◌ (raw_in (with_raw t trace))) (raw_in-map o)
          ∙ append-nil _ in
        ap (λ l. l ++ raws_of ts) e ∙ elim (Bool-cases config.has_raw) [
          | inl e ↦ rw e (
              ap (λ l. l ++ ts) (raw_in-append trace (Published.raw t ∷ []))
              ∙ append_assoc (raw_in trace) (t ∷ []) ts)
          | inr e ↦ rw e (ap (λ l. l ++ []) (raw_in-append trace [] ∙ append-nil _))
        ]

    session-Publishes :
        (a : TradeAggregator D) (key : Text) (ts out : List (TradeEvent D))
        (trace : List (Published D))
        → collect a ts key ≡ ok out
        → Publishes trace (raws_of ts) out (session ts key (state a trace))
    unfolding session collect
    session-Publishes a key [] out trace h = rw (flush_lem a key out trace h) (record {
      succeeds = refl;
      aggregated =
          aggregated_in-append trace (map Published.aggregated out)
          ∙ ap (◌++◌ (aggregated_in trace)) (aggregated_in-map out);
      raw =
          raw_in-append trace (map Published.aggregated out)
          ∙ ap (◌++◌ (raw_in trace)) (raw_in-map out ∙ sym no_raws);
    })
    session-Publishes a key (t ∷ ts) out trace h = elim (Result-cases (add a t).1) [
      | inr (e, k) ↦ cc (rw (k, collect) at h)
      | inl (o, k) ↦ elim (Result-cases (collect (add a t).0 ts key)) [
        | inr (e, m) ↦ cc (rw (k, collect, m) at h)
        | inl (more, m) ↦
            let all : o ++ more ≡ out = cc (rw (k, collect, m) at h) in
            (let r =
                session-Publishes (add a t).0 key ts more
                  (with_raw t trace ++ map Published.aggregated o) m in
              subst (Publishes trace (raws_of (t ∷ ts)) out)
                (sym (ap (λ q. and_then q (session ts key)) (handle_lem a t o trace k)))
                (record {
                  succeeds = r.succeeds;
                  aggregated =
                      r.aggregated
                      ∙ aggregated_in-step t o more trace
                      ∙ ap (◌++◌ (aggregated_in trace)) all;
                  raw = r.raw ∙ raw_in-step t o ts trace;
                }))
      ]
    ]

    new_trade_pipeline-state :
        config.has_significant ≡ false → new_trade_pipeline config ≡ state new_trade_aggregator []
    unfolding new_trade_pipeline
    new_trade_pipeline-state plain = ground (arith, ready.wanted)

    -- Where every publisher accepts what it is given, and there is one for aggregated trades and none
    -- for significant trades, a new pipeline that handles trades of one market and then flushes its key succeeds. It has
    -- published the coalesced trades of the batch routine, in order and once each, and, where raw
    -- trades have a publisher, every trade as it came.
    pub session-aggregate_trade_events :
        (key : Text) (ts : List (TradeEvent D))
        → config.has_significant ≡ false
        → All (λ t. trade_key t ≡ key) ts
        → let r = session ts key (new_trade_pipeline config) in
          (r.1 ≡ ok tt)
          × (aggregate_trade_events ts ≡ ok (aggregated_in r.0.trace))
          × (raw_in r.0.trace ≡ (if config.has_raw then ts else []))
    unfolding new_trade_pipeline new_trade_aggregator pending lookup
    session-aggregate_trade_events key ts plain one_market =
        let collected =
          collect-eq-aggregate_trade_events new_trade_aggregator key ts refl one_market
          ∙ aggregate_trade_events-samples ts in
        let p = session-Publishes new_trade_aggregator key ts (samples ts) [] collected in
        subst
          (λ q.
            ((session ts key q).1 ≡ ok tt)
            × (aggregate_trade_events ts ≡ ok (aggregated_in (session ts key q).0.trace))
            × (raw_in (session ts key q).0.trace ≡ (if config.has_raw then ts else [])))
          (sym (new_trade_pipeline-state plain))
          (p.succeeds, aggregate_trade_events-samples ts ∙ ap ok (sym p.aggregated), p.raw)
