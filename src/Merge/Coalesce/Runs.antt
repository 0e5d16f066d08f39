-- ===== src/Merge/Coalesce/Runs.antt =====
-- The samples that coalescing makes, as a plain function, and its laws.
use go_quant_tick.Common.{
  ◌≡◌, true, false, List, [], ◌∷◌, ◌++◌, ok, refl, Bool-cases, inl, inr, All-append, ◌∙◌, sym,
}
use go_quant_tick.Trade.{DecimalOps, TradeEvent}
use go_quant_tick.Aggregator.{same_sample}
use go_quant_tick.Aggregator.Sample.{
  Homogeneous, sample_of, aggregate_trades_lem, sample_of-IsSameSample, same_sample_iff,
  same_sample_congr, same_sample_symm,
}
use go_quant_tick.Merge.Coalesce.{coalesce_from, aggregate_trade_events}

module _ {D : Type 0} ⦃ops : DecimalOps D⦄ where
  unfoldable pub samples_from :
      TradeEvent D → List (TradeEvent D) → List (TradeEvent D) → List (TradeEvent D)
  samples_from start segment [] = sample_of start segment ∷ []
  samples_from start segment (trade ∷ rest) = elim (same_sample start trade) [
    | true ↦ samples_from start (segment ++ trade ∷ []) rest
    | false ↦ sample_of start segment ∷ samples_from trade [] rest
  ]

  unfoldable pub samples : List (TradeEvent D) → List (TradeEvent D)
  samples [] = []
  samples (first ∷ rest) = samples_from first [] rest

  pub coalesce_from-samples :
      (start : TradeEvent D) (segment rest : List (TradeEvent D))
      → Homogeneous start segment
      → coalesce_from start segment rest ≡ ok (samples_from start segment rest)
  unfolding coalesce_from samples_from
  coalesce_from-samples start segment [] h = rw (aggregate_trades_lem start segment h) refl
  coalesce_from-samples start segment (trade ∷ rest) h =
      elim (Bool-cases (same_sample start trade)) [
        | inl e ↦
            rw (e, coalesce_from, samples_from)
              (coalesce_from-samples start (segment ++ trade ∷ []) rest
                (All-append _ segment (trade ∷ []) h (e, tt)))
        | inr e ↦
            rw
              (
                e,
                coalesce_from,
                samples_from,
                aggregate_trades_lem start segment h,
                coalesce_from-samples trade [] rest tt,
              )
              refl
      ]

  -- Coalescing never fails.
  pub aggregate_trade_events-samples :
      (trades : List (TradeEvent D)) → aggregate_trade_events trades ≡ ok (samples trades)
  unfolding aggregate_trade_events samples
  aggregate_trade_events-samples [] = refl
  aggregate_trade_events-samples (first ∷ rest) = coalesce_from-samples first [] rest tt

module _ {D : Type 0} where
  -- No two neighbours have one sample.
  abbrev pub Separated : TradeEvent D → List (TradeEvent D) → Type 0
  Separated x [] = Unit
  Separated x (y ∷ rest) = (same_sample x y ≡ false) × Separated y rest

  abbrev pub IsSeparated : List (TradeEvent D) → Type 0
  IsSeparated [] = Unit
  IsSeparated (x ∷ rest) = Separated x rest

module _ {D : Type 0} ⦃ops : DecimalOps D⦄ where
  -- The head of the samples has the sample of the first trade, and the rest is separated.
  abbrev Starts : TradeEvent D → List (TradeEvent D) → Type 0
  Starts start l =
      (x : TradeEvent D) × (r : List (TradeEvent D)) × (l ≡ x ∷ r)
      × (same_sample start x ≡ true)
      × Separated x r

  samples_from-Starts :
      (start : TradeEvent D) (segment rest : List (TradeEvent D))
      → Homogeneous start segment
      → Starts start (samples_from start segment rest)
  unfolding samples_from
  samples_from-Starts start segment [] h = (
    sample_of start segment,
    [],
    refl,
    (same_sample_iff _ _).1 (sample_of-IsSameSample start segment h),
    tt,
  )
  samples_from-Starts start segment (trade ∷ rest) h = elim (Bool-cases (same_sample start trade)) [
    | inl e ↦
        rw (e, samples_from)
          (samples_from-Starts start (segment ++ trade ∷ []) rest
            (All-append _ segment (trade ∷ []) h (e, tt)))
    | inr e ↦
        let same : same_sample start (sample_of start segment) ≡ true =
          (same_sample_iff _ _).1 (sample_of-IsSameSample start segment h) in
        let (x, r, p, q, s) = samples_from-Starts trade [] rest tt in
        rw (e, samples_from)
          (
            sample_of start segment,
            samples_from trade [] rest,
            refl,
            same,
            rw p (
              sym (same_sample_congr start _ x same)
                  ∙ same_sample_symm start x
                  ∙ sym (same_sample_congr trade x start q)
                  ∙ same_sample_symm trade start
                  ∙ e,
              s,
            ),
          )
  ]

  pub samples-IsSeparated : (trades : List (TradeEvent D)) → IsSeparated (samples trades)
  unfolding samples
  samples-IsSeparated [] = tt
  samples-IsSeparated (first ∷ rest) =
      let (x, r, p, q, s) = samples_from-Starts first [] rest tt in rw p s

  samples_from_of_Separated :
      (start : TradeEvent D) (rest : List (TradeEvent D))
      → Separated start rest
      → samples_from start [] rest ≡ start ∷ rest
  unfolding samples_from sample_of
  samples_from_of_Separated start [] h = refl
  samples_from_of_Separated start (x ∷ rest) h =
      rw (h.0, samples_from, samples_from_of_Separated x rest h.1) refl

  pub samples_of_IsSeparated :
      (trades : List (TradeEvent D)) → IsSeparated trades → samples trades ≡ trades
  unfolding samples
  samples_of_IsSeparated [] h = refl
  samples_of_IsSeparated (x ∷ rest) h = samples_from_of_Separated x rest h
