-- ===== src/Significant/Adding.antt =====
-- The branches of `Add` of quanttick/significant_aggregator.go, and the segments that each emits.
use go_quant_tick.Common.{
  if◌then◌else◌, insert, ◌+◌, subst, ◌≡◌, ◌∙◌, ap, false, none, List, [], ◌∷◌, ◌++◌, append-nil,
  append_assoc, Text, text_Eq, Result, ok, err, refl, ◌>>=◌, All, Bool-cases, map, inl, inr, Dict,
}
use go_quant_tick.Trade.{Time, Duration, minute, truncate, DecimalOps, TradeEvent, trade_key}
use go_quant_tick.Aggregator.Pending.{pending-insert_self, pending-insert_ne}
use go_quant_tick.Significant.{
  SignificantTradeAggregator, SignificantTrade, SignificantError, Stepped, Window, is_significant,
  flush, hold, get_significant_trade_or_tick, roll, rolled, set_window, threshold_for,
}
use go_quant_tick.Significant.Segments.{Segment, trades_of, trades_in, tick_of, Quiet, IsSegment}
use go_quant_tick.Significant.Accounts.{
  SameWindows, closing, IsWellFormed, held, with_held, with_held-IsWellFormed, Emits, flush_empty,
  flush_segment, held_quiet, flush-marked, marked, marked-IsSegment, trades_of-marked, Quiet-before,
  Quiet-of_IsHeld, held-IsHeld,
}

abbrev pub window_from : Duration → Time → Window
window_from duration timestamp = record {
  start = truncate minute timestamp;
  stop = truncate minute timestamp + duration;
}

module _ {D : Type 0} ⦃ops : DecimalOps D⦄ where
  -- What a trade makes of the list `l` that is held when it comes: a significant one closes it.
  abbrev pub closed_by :
      SignificantTradeAggregator D → List (TradeEvent D) → TradeEvent D → List (Segment D)
  closed_by a l trade = if is_significant a trade then marked l trade ∷ [] else []

  abbrev pub left_by :
      SignificantTradeAggregator D → List (TradeEvent D) → TradeEvent D → List (TradeEvent D)
  left_by a l trade = if is_significant a trade then [] else l ++ trade ∷ []

  pub get_significant_trade_or_tick-Emits :
      (a : SignificantTradeAggregator D) (trade : TradeEvent D)
      → IsWellFormed a
      → Emits a
          (trade_key trade)
          (held (trade_key trade) a ++ trade ∷ [])
          (closed_by a (held (trade_key trade) a) trade)
          (left_by a (held (trade_key trade) a) trade)
          (get_significant_trade_or_tick a trade)
        × SameWindows a (get_significant_trade_or_tick a trade).0
  unfolding get_significant_trade_or_tick hold
  get_significant_trade_or_tick-Emits a trade w = elim (Bool-cases (is_significant a trade)) [
    | inl m ↦
        rw (m, get_significant_trade_or_tick, flush-marked a trade w m)
          (
            record {
              returned = refl;
              holds = pending-insert_self (trade_key trade) [] a.trades;
              accounted = append-nil _ ∙ append-nil _ ∙ trades_of-marked _ trade;
              segments = (marked-IsSegment a _ trade (Quiet-before a trade w) m, tt);
              well_formed = with_held-IsWellFormed a _ [] w tt;
              elsewhere = λ j h. pending-insert_ne _ j [] a.trades h;
            },
            (refl, refl),
          )
    | inr q ↦ rw (q, get_significant_trade_or_tick) (held_quiet a trade w q, (refl, refl))
  ]

  -- a further segment in front
  Emits-prepend :
      (a : SignificantTradeAggregator D) (key : Text) (p left : List (TradeEvent D))
      (segs : List (Segment D)) (next : SignificantTradeAggregator D)
      (out : List (SignificantTrade D)) (seg : Segment D)
      → IsSegment a seg
      → Emits a key p segs left (next, ok out)
      → Emits a key (trades_of seg ++ p) (seg ∷ segs) left (next, ok (tick_of a false seg ∷ out))
  Emits-prepend a key p left segs next out seg s e = record {
    returned = ap (λ r. r >>= λ l. ok (tick_of a false seg ∷ l)) e.returned;
    holds = e.holds;
    accounted =
        append_assoc (trades_of seg) (trades_in segs) left ∙ ap (◌++◌ (trades_of seg)) e.accounted;
    segments = (s, e.segments);
    well_formed = e.well_formed;
    elsewhere = e.elsewhere;
  }

  -- The windows do not matter.
  Emits-windows :
      (a : SignificantTradeAggregator D) (key : Text) (p left : List (TradeEvent D))
      (segs : List (Segment D)) (next : SignificantTradeAggregator D)
      (r : Result SignificantError (List (SignificantTrade D))) (wins : Dict Text Window)
      → Emits a key p segs left (next, r)
      → Emits a key p segs left (record next { windows = wins }, r)
  unfolding is_significant threshold_for
  Emits-windows a key p left segs next r wins e = record {
    returned = e.returned;
    holds = e.holds;
    accounted = e.accounted;
    segments = e.segments;
    well_formed = record { at_key = e.well_formed.at_key };
    elsewhere = e.elsewhere;
  }

  -- Nor do the lists for the key that the result replaces.
  Emits-with_held :
      (a : SignificantTradeAggregator D) (key : Text) (l p left : List (TradeEvent D))
      (segs : List (Segment D)) (r : Stepped D)
      → Emits (with_held a key l) key p segs left r
      → Emits a key p segs left r
  unfolding is_significant tick_of threshold_for
  Emits-with_held a key l p left segs r e = record {
    returned = e.returned;
    holds = e.holds;
    accounted = e.accounted;
    segments = e.segments;
    well_formed = e.well_formed;
    elsewhere = λ j h. e.elsewhere j h ∙ pending-insert_ne key j l a.trades h;
  }

  Emits-ok :
      (a : SignificantTradeAggregator D) (key : Text) (p left : List (TradeEvent D))
      (segs : List (Segment D)) (r : Stepped D)
      → Emits a key p segs left r
      → Emits a key p segs left (r.0, ok (map (tick_of a false) segs))
  Emits-ok a key p left segs r e = record {
    returned = refl;
    holds = e.holds;
    accounted = e.accounted;
    segments = e.segments;
    well_formed = e.well_formed;
    elsewhere = e.elsewhere;
  }

  roll_of_flush :
      (a closed : SignificantTradeAggregator D) (trade : TradeEvent D)
      (ticks : List (SignificantTrade D))
      → flush a (trade_key trade) ≡ (closed, ok ticks)
      → roll a trade ≡ rolled closed trade ticks
  unfolding roll
  roll_of_flush a closed trade ticks e =
      ap (λ (s : Stepped D). elim (s.1) [ err e ↦ (s.0, err e) | ok l ↦ rolled s.0 trade l ]) e

  -- The window's next one: what was held is closed, and the trade comes to an empty list.
  pub roll-held :
      (a : SignificantTradeAggregator D) (trade : TradeEvent D) (p : List (TradeEvent D))
      → IsWellFormed a
      → held (trade_key trade) a ≡ p
      → Emits a
          (trade_key trade)
          (p ++ trade ∷ [])
          (closing p ++ closed_by a [] trade)
          (left_by a [] trade)
          (roll a trade)
        × ((roll a trade).0.windows
            ≡ insert (trade_key trade) (window_from a.window_duration trade.timestamp) a.windows)
  unfolding rolled set_window
  roll-held a trade [] w e =
      let key = trade_key trade in
      let r = get_significant_trade_or_tick a trade in
      let em =
        subst
          (λ l.
            Emits a key (l ++ trade ∷ []) (closed_by a l trade) (left_by a l trade) r
            × SameWindows a r.0)
          e (get_significant_trade_or_tick-Emits a trade w) in
      rw (roll_of_flush a a trade _ (flush_empty a key e), rolled, em.0.returned)
        (
          Emits-windows a key (trade ∷ []) _ _ r.0 _ _ (Emits-ok a key (trade ∷ []) _ _ r em.0),
          rw (em.1.0, em.1.1) refl,
        )
  roll-held a trade (first ∷ rest) w e =
      let key = trade_key trade in
      let closed = with_held a key [] in
      let seg : Segment D = record { first = first; rest = rest; found = none } in
      let quiet : IsSegment a seg = inl (
        refl,
        subst (All (Quiet a)) e (Quiet-of_IsHeld a key (held key a) (held-IsHeld a key w)),
      ) in
      let r = get_significant_trade_or_tick closed trade in
      let em =
        subst
          (λ l.
            Emits closed key (l ++ trade ∷ []) (closed_by closed l trade) (left_by closed l trade) r
            × SameWindows closed r.0)
          (pending-insert_self key [] a.trades)
          (get_significant_trade_or_tick-Emits closed trade
            (with_held-IsWellFormed a key [] w tt)) in
      let em' : Emits a key (trade ∷ []) (closed_by a [] trade) (left_by a [] trade) r =
        unfold is_significant threshold_for in Emits-with_held a key [] (trade ∷ []) _ _ r em.0 in
      rw (roll_of_flush a closed trade _ (flush_segment a key seg e quiet), rolled, em'.returned)
        (
          Emits-windows a key (first ∷ (rest ++ trade ∷ [])) _ _ r.0 _ _ (
              Emits-prepend a key (trade ∷ []) _ (closed_by a [] trade) r.0 _ seg quiet
                (Emits-ok a key (trade ∷ []) _ _ r em')),
          rw (em.1.0, em.1.1) refl,
        )
