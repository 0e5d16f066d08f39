-- ===== src/Merge/Coalesce/Conservation.antt =====
-- The sums of volumes, notionals and ticks before and after coalescing.
use go_quant_tick.Common.{
  ◌≡◌, ◌∙◌, sym, ap, List, [], ◌∷◌, ◌++◌, append-nil, append_assoc, refl, Bool-cases, inl, inr,
}
use go_quant_tick.Trade.{DecimalOps, TradeEvent}
use go_quant_tick.Aggregator.{same_sample}
use go_quant_tick.Aggregator.Measure.{
  Measure, sum_of, sum_of-append, sum_of-zero, of_trade-sample_of,
}
use go_quant_tick.Merge.Coalesce.Runs.{samples_from, samples}

module _ {D M : Type 0} ⦃ops : DecimalOps D⦄ (m : Measure D M) where
  sum_of-samples_from :
      (start : TradeEvent D) (segment rest : List (TradeEvent D))
      → sum_of m (samples_from start segment rest) ≡ sum_of m ((start ∷ segment) ++ rest)
  unfolding samples_from sum_of
  sum_of-samples_from start segment [] =
      of_trade-sample_of m start segment m.zero
      ∙ sum_of-zero m (start ∷ segment)
      ∙ ap (sum_of m) (sym (append-nil (start ∷ segment)))
  sum_of-samples_from start segment (trade ∷ rest) = elim (Bool-cases (same_sample start trade)) [
    | inl e ↦
        rw (e, samples_from)
          (sum_of-samples_from start (segment ++ trade ∷ []) rest
            ∙ ap (λ l. sum_of m (start ∷ l)) (append_assoc segment (trade ∷ []) rest))
    | inr e ↦
        rw (e, samples_from)
          (of_trade-sample_of m start segment (sum_of m (samples_from trade [] rest))
            ∙ ap (Measure.plus m (sum_of m (start ∷ segment))) (sum_of-samples_from trade [] rest)
            ∙ sym (sum_of-append m (start ∷ segment) (trade ∷ rest)))
  ]

  pub sum_of-samples : (trades : List (TradeEvent D)) → sum_of m (samples trades) ≡ sum_of m trades
  unfolding samples
  sum_of-samples [] = refl
  sum_of-samples (first ∷ rest) = sum_of-samples_from first [] rest
