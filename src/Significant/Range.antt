-- ===== src/Significant/Range.antt =====
-- The high and the low of a tick against the prices of its segment.
use go_quant_tick.Common.{◌≡◌, false, Option, none, some, List, [], ◌∷◌, All, Bool, arith}
use go_quant_tick.Trade.{DecimalOps, DecimalLaws, TradeEvent}
use go_quant_tick.Significant.{
  SignificantTradeAggregator, SignificantTrade, Summary, no_summary, summarize, context_tick,
  with_significant,
}
use go_quant_tick.Significant.Segments.{Segment, trades_of, summary, tick_of}

module _ {D : Type 0} ⦃ops : DecimalOps D⦄ ⦃laws : DecimalLaws D⦄ where
  -- `low` is not above and `high` is not below the price of any trade.
  abbrev pub Bounds : D → D → TradeEvent D → Type 0
  Bounds low high t = (ops.less_than t.price low ≡ false) × (ops.less_than high t.price ≡ false)

  record Widens (s r : Summary D) : Type 0 where
    high : ops.less_than r.high s.high ≡ false
    low : ops.less_than s.low r.low ≡ false

  summarize-Widens : (s : Summary D) (t : TradeEvent D) → Widens s (summarize s t)
  unfolding summarize
  summarize-Widens s t = ground (
    arith,
    laws.greater_than_lem t.price s.high,
    laws.less_than_irrefl s.high,
    laws.less_than_irrefl s.low,
    laws.less_than_asymm s.high t.price,
    laws.less_than_asymm t.price s.low,
  )

  summarize-Bounds :
      (s : Summary D) (t : TradeEvent D) → Bounds (summarize s t).low (summarize s t).high t
  unfolding summarize
  summarize-Bounds s t =
      ground (arith, laws.greater_than_lem t.price s.high, laws.less_than_irrefl t.price)

  Widens-Bounds :
      (s r : Summary D) (t : TradeEvent D)
      → Widens s r
      → Bounds s.low s.high t
      → Bounds r.low r.high t
  Widens-Bounds s r t w b =
      (laws.less_than_trans _ _ _ b.0 w.low, laws.less_than_trans _ _ _ w.high b.1)

  summary-Widens : (s : Summary D) (l : List (TradeEvent D)) → Widens s (summary s l)
  unfolding summary
  summary-Widens s [] = record { high = laws.less_than_irrefl _; low = laws.less_than_irrefl _ }
  summary-Widens s (t ∷ l) =
      let one = summarize-Widens s t in
      let more = summary-Widens (summarize s t) l in
      record {
        high = laws.less_than_trans _ _ _ more.high one.high;
        low = laws.less_than_trans _ _ _ one.low more.low;
      }

  summary-Bounds :
      (s : Summary D) (l : List (TradeEvent D))
      → All (Bounds (summary s l).low (summary s l).high) l
  unfolding summary
  summary-Bounds s [] = tt
  summary-Bounds s (t ∷ l) = (
    Widens-Bounds (summarize s t) _ t (summary-Widens (summarize s t) l) (summarize-Bounds s t),
    summary-Bounds (summarize s t) l,
  )

  with_significant-Bounds :
      (tick : SignificantTrade D) (found : Option (TradeEvent D)) (l : List (TradeEvent D))
      → All (Bounds tick.low tick.high) l
      → All (Bounds (with_significant tick found).low (with_significant tick found).high) l
  unfolding with_significant
  with_significant-Bounds tick none l h = h
  with_significant-Bounds tick (some t) l h = h

  -- No price of the segment is below the tick's low or above its high.
  pub tick_of-Bounds :
      (a : SignificantTradeAggregator D) (is_late : Bool) (seg : Segment D)
      → All (Bounds (tick_of a is_late seg).low (tick_of a is_late seg).high) (trades_of seg)
  unfolding tick_of context_tick
  tick_of-Bounds a is_late seg =
      with_significant-Bounds _ seg.found (trades_of seg)
        (summary-Bounds (no_summary seg.first) (trades_of seg))
