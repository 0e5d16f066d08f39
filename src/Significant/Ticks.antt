-- ===== src/Significant/Ticks.antt =====
-- What a tick that `aggregate` returns says of the trades that it was given.
use go_quant_tick.Common.{
  ◌≡◌, Bool, Option, none, List, [], ◌∷◌, Result, ok, err, ◌>>=◌, refl, All, sym, subst,
}
use go_quant_tick.Trade.{DecimalOps, DecimalLaws, TradeEvent}
use go_quant_tick.Significant.{
  SignificantTradeAggregator, SignificantTrade, Summary, no_summary, summarize, scan, mark,
  aggregate,
}
use go_quant_tick.Significant.Segments.{Segment, summary, tick_of}
use go_quant_tick.Significant.Totals.{SumsUp, tick_of-SumsUp}
use go_quant_tick.Significant.Range.{Bounds, tick_of-Bounds}

module _ {E A B : Type 0} where
  -- inversion of a successful bind
  >>=-eq-ok :
      (r : Result E A) (f : A → Result E B) (b : B)
      → (r >>= f) ≡ ok b
      → (a : A) × (r ≡ ok a) × (f a ≡ ok b)
  >>=-eq-ok (ok a) f b h = (a, refl, h)
  >>=-eq-ok (err e) f b h = cc

module _ {D : Type 0} ⦃ops : DecimalOps D⦄ (a : SignificantTradeAggregator D) where
  scan-summary :
      (s : Summary D) (found : Option (TradeEvent D)) (l : List (TradeEvent D))
      (r : Summary D × Option (TradeEvent D))
      → scan a s found l ≡ ok r
      → r.0 ≡ summary s l
  unfolding scan summary
  scan-summary s found [] r h = cc
  scan-summary s found (t ∷ l) r h =
      let (f, e, k) = >>=-eq-ok (mark a found t) _ r h in scan-summary (summarize s t) f l r k

  -- A tick is that of a segment of all its trades.
  aggregate-tick_of :
      (first : TradeEvent D) (rest : List (TradeEvent D)) (is_late : Bool)
      (tick : SignificantTrade D)
      → aggregate a (first ∷ rest) is_late ≡ ok tick
      → (found : Option (TradeEvent D)) × (tick
          ≡ tick_of a is_late (record { first = first; rest = rest; found = found }))
  unfolding aggregate tick_of
  aggregate-tick_of first rest is_late tick h =
      let (r, e, k) = >>=-eq-ok (scan a (no_summary first) none (first ∷ rest)) _ tick h in
      let s = scan-summary (no_summary first) none (first ∷ rest) r e in (r.1, cc (k, s))

module _ {D : Type 0} ⦃ops : DecimalOps D⦄ ⦃laws : DecimalLaws D⦄ where
  -- Whatever list `aggregate` makes a tick of, the totals of the tick are the sums over that list,
  -- and no price of the list is below the tick's low or above its high.
  pub aggregate-SumsUp :
      (a : SignificantTradeAggregator D) (first : TradeEvent D) (rest : List (TradeEvent D))
      (is_late : Bool) (tick : SignificantTrade D)
      → aggregate a (first ∷ rest) is_late ≡ ok tick
      → SumsUp tick (first ∷ rest) × All (Bounds tick.low tick.high) (first ∷ rest)
  aggregate-SumsUp a first rest is_late tick h =
      let (found, same) = aggregate-tick_of a first rest is_late tick h in
      let seg : Segment D = record { first = first; rest = rest; found = found } in
      subst
        (λ (tk : SignificantTrade D).
          SumsUp tk (first ∷ rest) × All (Bounds tk.low tk.high) (first ∷ rest))
        (sym same) (tick_of-SumsUp a is_late seg, tick_of-Bounds a is_late seg)
