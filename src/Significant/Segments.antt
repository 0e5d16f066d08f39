-- ===== src/Significant/Segments.antt =====
-- The lists of trades that become one tick, and what `aggregate` makes of them.
use go_quant_tick.Common.{
  ◌≡◌, sym, ap, ◌>>=◌, true, false, Option, none, some, List, [], ◌∷◌, ◌++◌, text_Eq, ok, refl, All,
  last_of, Bool, ◌⊎◌, inl, inr, append_assoc,
}
use go_quant_tick.Trade.{DecimalOps, TradeEvent}
use go_quant_tick.Significant.{
  SignificantTradeAggregator, SignificantTrade, Summary, is_significant, no_summary, summarize,
  scan, mark, threshold_for, context_tick, with_significant, aggregate,
}

-- `found` is the significant trade among them.
pub record Segment (D : Type 0) : Type 0 where
  pub first : TradeEvent D
  pub rest : List (TradeEvent D)
  pub found : Option (TradeEvent D)

module _ {D : Type 0} where
  abbrev pub trades_of : Segment D → List (TradeEvent D)
  trades_of seg = seg.first ∷ seg.rest

  abbrev pub last : Segment D → TradeEvent D
  last seg = last_of seg.first seg.rest

  -- The trades of all segments, in order.
  abbrev pub trades_in : List (Segment D) → List (TradeEvent D)
  trades_in [] = []
  trades_in (seg ∷ rest) = trades_of seg ++ trades_in rest

  pub trades_in-append :
      (xs ys : List (Segment D)) → trades_in (xs ++ ys) ≡ trades_in xs ++ trades_in ys
  trades_in-append [] ys = refl
  trades_in-append (x ∷ xs) ys =
      rw (trades_in-append xs ys) (sym (append_assoc (trades_of x) (trades_in xs) (trades_in ys)))

module _ {D : Type 0} ⦃ops : DecimalOps D⦄ where
  unfoldable pub summary : Summary D → List (TradeEvent D) → Summary D
  summary s [] = s
  summary s (trade ∷ rest) = summary (summarize s trade) rest

  pub summary-append :
      (s : Summary D) (xs ys : List (TradeEvent D))
      → summary s (xs ++ ys) ≡ summary (summary s xs) ys
  unfolding summary
  summary-append s [] ys = refl
  summary-append s (x ∷ xs) ys = summary-append (summarize s x) xs ys

  abbrev pub summary_of : Segment D → Summary D
  summary_of seg = summary (no_summary seg.first) (trades_of seg)

module _ {D : Type 0} ⦃ops : DecimalOps D⦄ (a : SignificantTradeAggregator D) where
  unfoldable pub tick_of : Bool → Segment D → SignificantTrade D
  tick_of is_late seg =
      with_significant
        (context_tick (last seg) (summary_of seg) (threshold_for a (last seg)) is_late) seg.found

  abbrev pub Quiet : TradeEvent D → Type 0
  Quiet t = is_significant a t ≡ false

  -- Only the last trade of a segment may be significant.
  abbrev pub IsSegment : Segment D → Type 0
  IsSegment seg =
      ((seg.found ≡ none) × All Quiet (trades_of seg))
      ⊎ ((before : List (TradeEvent D)) × (trades_of seg ≡ before ++ last seg ∷ [])
          × All Quiet before
          × (is_significant a (last seg) ≡ true)
          × (seg.found ≡ some (last seg)))

  scan-Quiet :
      (s : Summary D) (l : List (TradeEvent D))
      → All Quiet l
      → scan a s none l ≡ ok (summary s l, none)
  unfolding summary scan mark summarize
  scan-Quiet s [] h = refl
  scan-Quiet s (t ∷ l) h = rw (h.0, mark) (scan-Quiet (summarize s t) l h.1)

  scan_marked :
      (s : Summary D) (before : List (TradeEvent D)) (t : TradeEvent D)
      → All Quiet before
      → is_significant a t ≡ true
      → scan a s none (before ++ t ∷ []) ≡ ok (summary s (before ++ t ∷ []), some t)
  unfolding summary scan mark summarize
  scan_marked s [] t h m = rw (m, mark) refl
  scan_marked s (x ∷ before) t h m = rw (h.0, mark) (scan_marked (summarize s x) before t h.1 m)

  aggregate_of_scan :
      (seg : Segment D) (is_late : Bool)
      → scan a (no_summary seg.first) none (trades_of seg) ≡ ok (summary_of seg, seg.found)
      → aggregate a (trades_of seg) is_late ≡ ok (tick_of is_late seg)
  unfolding aggregate tick_of
  aggregate_of_scan seg is_late e =
      ap
        (λ r. r >>= λ found. ok (
          with_significant (context_tick (last seg) found.0 (threshold_for a (last seg)) is_late)
            found.1))
        e

  -- `aggregate` makes one tick of every segment: it does not fail there.
  pub aggregate_lem :
      (seg : Segment D) (is_late : Bool)
      → IsSegment seg
      → aggregate a (trades_of seg) is_late ≡ ok (tick_of is_late seg)
  aggregate_lem seg is_late (inl (e, quiet)) =
      aggregate_of_scan seg is_late (rw e (scan-Quiet _ (trades_of seg) quiet))
  aggregate_lem seg is_late (inr (before, split, quiet, m, e)) =
      aggregate_of_scan seg is_late (rw (e, split) (scan_marked _ before (last seg) quiet m))
