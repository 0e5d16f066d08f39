-- ===== src/Merge/Filter/Cuts.antt =====
-- volumeFilterAggregatedTrades of quanttick/websocket_data_merge.go cuts the trades of a bucket
-- behind each one of the minimum volume.
use go_quant_tick.Common.{
  ◌≡◌, Bool, true, false, not, Option, none, some, List, [], ◌∷◌, ◌++◌, Result, ok, err, ◌>>=◌,
  last_of, All, All-append, refl, sym, subst, ap, ◌∙◌, append_assoc, append-nil, Bool-cases, inl,
  inr, ◌⊎◌, if◌then◌else◌, text_Eq,
}
use go_quant_tick.Trade.{DecimalOps, DecimalLaws, TradeEvent}
use go_quant_tick.Significant.{
  SignificantTrade, SignificantTradeAggregator, new_significant_trade_aggregator, threshold_for,
}
use go_quant_tick.Significant.Segments.{Segment, tick_of}
use go_quant_tick.Significant.Totals.{SumsUp, tick_of-SumsUp}
use go_quant_tick.Significant.Range.{Bounds, tick_of-Bounds}
use go_quant_tick.Aggregator.Measure.{sum_of, volumes, sum_of-append, sum_of-zero}
use go_quant_tick.Merge.Filter.{
  is_min_volume, filtered_trade, filter_from, aggregate_filtered_trade_segment,
  volume_filter_aggregated_trades,
}

module _ {D : Type 0} ⦃ops : DecimalOps D⦄ where
  -- the aggregator with this threshold for every market
  aggregator_of : D → SignificantTradeAggregator D
  aggregator_of threshold = new_significant_trade_aggregator threshold [] 0

  filtered_trade-tick_of :
      (threshold : D) (first : TradeEvent D) (rest : List (TradeEvent D)) (is_min : Bool)
      → filtered_trade first rest is_min threshold
        ≡ tick_of (aggregator_of threshold) false (record {
          first = first;
          rest = rest;
          found = if is_min then some (last_of first rest) else none;
        })
  unfolding filtered_trade tick_of aggregator_of threshold_for go_quant_tick.Common.lookup
      new_significant_trade_aggregator
  filtered_trade-tick_of threshold first rest is_min = refl

  -- A list of trades as the list with head and rest, for the record that the filter makes of it.
  abbrev pub FilteredFrom : D → List (TradeEvent D) → Bool → SignificantTrade D → Type 0
  FilteredFrom threshold [] is_min tick = ⊥
  FilteredFrom threshold (first ∷ rest) is_min tick =
      tick ≡ filtered_trade first rest is_min threshold

  abbrev pub Small : D → TradeEvent D → Type 0
  Small threshold t = is_min_volume threshold t ≡ false

  -- The lists of results that the trades may have: each trade of the minimum volume closes a
  -- segment behind smaller ones, and what is left over is a segment with no such trade.
  pub data Cuts (threshold : D) : List (TradeEvent D) → List (SignificantTrade D) → Type 0 where
    done : Cuts threshold [] []
    left_over :
        {l : List (TradeEvent D)} {tick : SignificantTrade D}
        → All (Small threshold) l
        → FilteredFrom threshold l false tick
        → Cuts threshold l (tick ∷ [])
    cut :
        {l : List (TradeEvent D)} {out : List (SignificantTrade D)} (small : List (TradeEvent D))
        (large : TradeEvent D) (rest : List (TradeEvent D)) {tick : SignificantTrade D}
        → l ≡ small ++ large ∷ rest
        → All (Small threshold) small
        → is_min_volume threshold large ≡ true
        → FilteredFrom threshold (small ++ large ∷ []) true tick
        → Cuts threshold rest out
        → Cuts threshold l (tick ∷ out)

  segment-ok :
      (threshold : D) (small : List (TradeEvent D)) (large : TradeEvent D) (is_min : Bool)
      → (tick : SignificantTrade D) × (aggregate_filtered_trade_segment
            (small ++ large ∷ [])
            is_min
            threshold
          ≡ ok tick)
        × FilteredFrom threshold (small ++ large ∷ []) is_min tick
  unfolding aggregate_filtered_trade_segment
  segment-ok threshold [] large is_min = (_, refl, refl)
  segment-ok threshold (s ∷ small) large is_min = (_, refl, refl)

  filter_from_small :
      (threshold : D) (segment : List (TradeEvent D)) (t : TradeEvent D)
      (rest : List (TradeEvent D))
      → is_min_volume threshold t ≡ false
      → filter_from threshold segment (t ∷ rest) ≡ filter_from threshold (segment ++ t ∷ []) rest
  unfolding filter_from
  filter_from_small threshold [] t rest e = rw (e, filter_from) refl
  filter_from_small threshold (s ∷ segment) t rest e = rw (e, filter_from) refl

  filter_from_large :
      (threshold : D) (segment : List (TradeEvent D)) (t : TradeEvent D)
      (rest : List (TradeEvent D))
      → is_min_volume threshold t ≡ true
      → filter_from threshold segment (t ∷ rest) ≡ (
          aggregate_filtered_trade_segment (segment ++ t ∷ []) true threshold >>= λ filtered.
          filter_from threshold [] rest >>= λ more. ok (filtered ∷ more))
  unfolding filter_from
  filter_from_large threshold [] t rest e = rw (e, filter_from) refl
  filter_from_large threshold (s ∷ segment) t rest e = rw (e, filter_from) refl

  filter_from-Cuts :
      (threshold : D) (segment rest : List (TradeEvent D))
      → All (Small threshold) segment
      → (out : List (SignificantTrade D)) × (filter_from threshold segment rest ≡ ok out)
        × Cuts threshold (segment ++ rest) out
  unfolding filter_from aggregate_filtered_trade_segment
  filter_from-Cuts threshold [] [] small = ([], refl, done)
  filter_from-Cuts threshold (first ∷ segment) [] small =
      (_, refl, rw (append-nil segment) (left_over small refl))
  filter_from-Cuts threshold segment (t ∷ rest) small =
      elim (Bool-cases (is_min_volume threshold t)) [
        | inl e ↦
            let (tick, made, from) = segment-ok threshold segment t true in
            let (more, k, cuts) = filter_from-Cuts threshold [] rest tt in
            (
              tick ∷ more,
              filter_from_large threshold segment t rest e ∙ rw (made, k) refl,
              cut segment t rest refl small e from cuts,
            )
        | inr e ↦
            let (out, k, cuts) =
              filter_from-Cuts threshold (segment ++ t ∷ []) rest
                (All-append (Small threshold) segment (t ∷ []) small (e, tt)) in
            (
              out,
              filter_from_small threshold segment t rest e ∙ k,
              subst (λ l. Cuts threshold l out) (append_assoc segment (t ∷ []) rest) cuts,
            )
      ]

  -- The filter does not fail, and its results are those of the cuts behind the trades of the
  -- minimum volume, in order.
  pub volume_filter_aggregated_trades-Cuts :
      (trades : List (TradeEvent D)) (threshold : D)
      → (out : List (SignificantTrade D)) × (volume_filter_aggregated_trades trades threshold
          ≡ ok out)
        × Cuts threshold trades out
  unfolding volume_filter_aggregated_trades
  volume_filter_aggregated_trades-Cuts trades threshold = filter_from-Cuts threshold [] trades tt

module _ {D : Type 0} ⦃ops : DecimalOps D⦄ ⦃laws : DecimalLaws D⦄ where
  FilteredFrom-Sums :
      (threshold : D) (l : List (TradeEvent D)) (is_min : Bool) (tick : SignificantTrade D)
      → FilteredFrom threshold l is_min tick
      → SumsUp tick l × All (Bounds tick.low tick.high) l
  FilteredFrom-Sums threshold [] is_min tick h = absurd h
  FilteredFrom-Sums threshold (first ∷ rest) is_min tick h =
      let seg : Segment D = record {
        first = first;
        rest = rest;
        found = if is_min then some (last_of first rest) else none;
      } in
      subst
        (λ (tk : SignificantTrade D).
          SumsUp tk (first ∷ rest) × All (Bounds tk.low tk.high) (first ∷ rest))
        (sym (h ∙ filtered_trade-tick_of threshold first rest is_min))
        (
          tick_of-SumsUp (aggregator_of threshold) false seg,
          tick_of-Bounds (aggregator_of threshold) false seg,
        )

  -- The totals of the results, added up, are the sums over all trades that were cut.
  abbrev pub volume_in : List (SignificantTrade D) → D
  volume_in [] = ops.zero_value
  volume_in (tick ∷ out) = ops.add tick.total_volume (volume_in out)

  Cuts-volume_in :
      (threshold : D) {l : List (TradeEvent D)} {out : List (SignificantTrade D)}
      → Cuts threshold l out
      → volume_in out ≡ sum_of volumes l
  unfolding sum_of volumes
  Cuts-volume_in threshold done = refl
  Cuts-volume_in threshold (left_over {l} {tick} small from) =
      ap (λ v. ops.add v ops.zero_value)
        (FilteredFrom-Sums threshold l false tick from).0.total_volume
      ∙ sum_of-zero volumes l
  Cuts-volume_in threshold (cut {l} {out} small large rest {tick} e quiet big from cuts) =
      ap (λ v. ops.add v (volume_in out))
        (FilteredFrom-Sums threshold (small ++ large ∷ []) true tick from).0.total_volume
      ∙ ap (ops.add (sum_of volumes (small ++ large ∷ []))) (Cuts-volume_in threshold cuts)
      ∙ sym (sum_of-append volumes (small ++ large ∷ []) rest)
      ∙ ap (sum_of volumes) (append_assoc small (large ∷ []) rest ∙ sym e)

  -- The filter does not fail, and the total volumes of its results add up to the volume of all
  -- trades.
  pub volume_filter_aggregated_trades-volume_in :
      (trades : List (TradeEvent D)) (threshold : D)
      → (out : List (SignificantTrade D)) × (volume_filter_aggregated_trades trades threshold
          ≡ ok out)
        × (volume_in out ≡ sum_of volumes trades)
  volume_filter_aggregated_trades-volume_in trades threshold =
      let (out, e, cuts) = volume_filter_aggregated_trades-Cuts trades threshold in
      (out, e, Cuts-volume_in threshold cuts)
