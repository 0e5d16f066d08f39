-- ===== src/Significant/Accounts.antt =====
-- `Add` and `Flush` of quanttick/significant_aggregator.go: their errors, and the trades that they
-- account for.
use go_quant_tick.Common.{
  insert-insert, last_of-append, subst, ◌≡◌, ◌≢◌, ◌∙◌, sym, ap, true, false, none, some, List, [],
  ◌∷◌, ◌++◌, append-nil, Text, text_Eq, ok, refl, All, All-append, Option-cases, map, insert,
  lookup, Everywhere, Everywhere-insert, inl, inr,
}
use go_quant_tick.Trade.{DecimalOps, TradeEvent, trade_key}
use go_quant_tick.Aggregator.{pending}
use go_quant_tick.Aggregator.Pending.{pending-insert_self, pending-insert_ne}
use go_quant_tick.Significant.{
  SignificantTradeAggregator, Stepped, is_significant, get_tick, flush, hold, threshold_for,
}
use go_quant_tick.Significant.Segments.{
  Segment, trades_of, trades_in, last, tick_of, Quiet, IsSegment, aggregate_lem,
}

module _ {D : Type 0} ⦃ops : DecimalOps D⦄ where
  abbrev pub IsHeld : SignificantTradeAggregator D → Text → List (TradeEvent D) → Type 0
  IsHeld a key l = All (λ t. (is_significant a t ≡ false) × (trade_key t ≡ key)) l

  -- What is held for a key has that key, and nothing of it is significant.
  abbrev pub IsWellFormed : SignificantTradeAggregator D → Type 0
  IsWellFormed a = Everywhere (IsHeld a) a.trades

  abbrev pub held : Text → SignificantTradeAggregator D → List (TradeEvent D)
  held key a = pending key a.trades

  pub held-IsHeld :
      (a : SignificantTradeAggregator D) (key : Text) → IsWellFormed a → IsHeld a key (held key a)
  unfolding pending
  held-IsHeld a key w = elim (Option-cases (lookup key a.trades)) [
    | inl e ↦ rw (e, pending) tt
    | inr (l, e) ↦ rw (e, pending) (w.at_key key l e)
  ]

  pub Quiet-of_IsHeld :
      (a : SignificantTradeAggregator D) (key : Text) (l : List (TradeEvent D))
      → IsHeld a key l
      → All (Quiet a) l
  Quiet-of_IsHeld a key [] h = tt
  Quiet-of_IsHeld a key (t ∷ l) h = (h.0.0, Quiet-of_IsHeld a key l h.1)

  -- `a` with the list for one key replaced
  abbrev pub with_held :
      SignificantTradeAggregator D → Text → List (TradeEvent D) → SignificantTradeAggregator D
  with_held a key l = record a { trades = insert key l a.trades }

  pub with_held-IsWellFormed :
      (a : SignificantTradeAggregator D) (key : Text) (l : List (TradeEvent D))
      → IsWellFormed a
      → IsHeld a key l
      → IsWellFormed (with_held a key l)
  unfolding is_significant threshold_for
  with_held-IsWellFormed a key l w h = Everywhere-insert (IsHeld a) key l a.trades h w

  -- A result that emits the segments `segs` of `p`, one tick each, and then holds `left`.
  pub record Emits (a : SignificantTradeAggregator D) (key : Text) (p : List (TradeEvent D))
      (segs : List (Segment D)) (left : List (TradeEvent D)) (r : Stepped D) : Type 0 where
    pub returned : r.1 ≡ ok (map (tick_of a false) segs)
    pub holds : held key r.0 ≡ left
    pub accounted : trades_in segs ++ left ≡ p
    pub segments : All (IsSegment a) segs
    pub well_formed : IsWellFormed r.0
    pub elsewhere : (j : Text) → key ≢ j → held j r.0 ≡ held j a

  abbrev pub SameWindows : SignificantTradeAggregator D → SignificantTradeAggregator D → Type 0
  SameWindows a b = (b.windows ≡ a.windows) × (b.window_duration ≡ a.window_duration)

  -- what was held is closed as one segment, if it is anything
  abbrev pub closing : List (TradeEvent D) → List (Segment D)
  closing [] = []
  closing (first ∷ rest) = record { first = first; rest = rest; found = none } ∷ []

  pub flush_empty :
      (a : SignificantTradeAggregator D) (key : Text) → held key a ≡ [] → flush a key ≡ (a, ok [])
  unfolding flush get_tick
  flush_empty a key e = rw (e, flush, get_tick) refl

  pub flush_segment :
      (a : SignificantTradeAggregator D) (key : Text) (seg : Segment D)
      → held key a ≡ trades_of seg
      → IsSegment a seg
      → flush a key ≡ (with_held a key [], ok (tick_of a false seg ∷ []))
  unfolding flush get_tick insert tick_of
  flush_segment a key seg e s = rw (e, flush, get_tick, aggregate_lem a seg false s) refl

  flush-held :
      (a : SignificantTradeAggregator D) (key : Text) (p : List (TradeEvent D))
      → IsWellFormed a
      → held key a ≡ p
      → Emits a key p (closing p) [] (flush a key) × SameWindows a (flush a key).0
  flush-held a key [] w e = rw (flush_empty a key e) (
    record {
      returned = refl;
      holds = e;
      accounted = refl;
      segments = tt;
      well_formed = w;
      elsewhere = λ j h. refl;
    },
    (refl, refl),
  )
  flush-held a key (first ∷ rest) w e =
      let seg : Segment D = record { first = first; rest = rest; found = none } in
      let s : IsSegment a seg = inl (
        refl,
        subst (All (Quiet a)) e (Quiet-of_IsHeld a key (held key a) (held-IsHeld a key w)),
      ) in
      rw (flush_segment a key seg e s) (
        record {
          returned = refl;
          holds = pending-insert_self key [] a.trades;
          accounted = append-nil _ ∙ append-nil _;
          segments = (s, tt);
          well_formed = with_held-IsWellFormed a key [] w tt;
          elsewhere = λ j h. pending-insert_ne key j [] a.trades h;
        },
        (refl, refl),
      )

  -- On an aggregator that holds for each key only trades of that key, none of them significant,
  -- `Flush` returns no error. It returns one tick of all that was held for the key, in its order and
  -- without a significant trade, and none where nothing was held, and holds nothing for the key
  -- afterwards. What is held for other keys and the windows do not change, and the aggregator stays as
  -- described.
  pub flush-Emits :
      (a : SignificantTradeAggregator D) (key : Text)
      → IsWellFormed a
      → Emits a key (held key a) (closing (held key a)) [] (flush a key)
        × SameWindows a (flush a key).0
  flush-Emits a key w = flush-held a key (held key a) w refl

  -- The segment of what was held and of the significant trade `t`.
  unfoldable pub marked : List (TradeEvent D) → TradeEvent D → Segment D
  marked [] t = record { first = t; rest = []; found = some t }
  marked (x ∷ p) t = record { first = x; rest = p ++ t ∷ []; found = some t }

  pub trades_of-marked :
      (p : List (TradeEvent D)) (t : TradeEvent D) → trades_of (marked p t) ≡ p ++ t ∷ []
  unfolding marked
  trades_of-marked [] t = refl
  trades_of-marked (x ∷ p) t = refl

  last-marked : (p : List (TradeEvent D)) (t : TradeEvent D) → last (marked p t) ≡ t
  unfolding marked
  last-marked [] t = refl
  last-marked (x ∷ p) t = last_of-append x p t

  found-marked : (p : List (TradeEvent D)) (t : TradeEvent D) → (marked p t).found ≡ some t
  unfolding marked
  found-marked [] t = refl
  found-marked (x ∷ p) t = refl

  pub marked-IsSegment :
      (a : SignificantTradeAggregator D) (p : List (TradeEvent D)) (t : TradeEvent D)
      → All (Quiet a) p
      → is_significant a t ≡ true
      → IsSegment a (marked p t)
  marked-IsSegment a p t quiet m =
      let e = last-marked p t in
      inr (p, rw e (trades_of-marked p t), quiet, rw e m, rw e (found-marked p t))

  module _ (a : SignificantTradeAggregator D) (trade : TradeEvent D) (w : IsWellFormed a) where
    pub Quiet-before : All (Quiet a) (held (trade_key trade) a)
    Quiet-before = Quiet-of_IsHeld a (trade_key trade) _ (held-IsHeld a (trade_key trade) w)

    pub held_quiet :
        is_significant a trade ≡ false
        → Emits a
            (trade_key trade)
            (held (trade_key trade) a ++ trade ∷ [])
            []
            (held (trade_key trade) a ++ trade ∷ [])
            (hold a trade, ok [])
    unfolding hold
    held_quiet q = record {
      returned = refl;
      holds = pending-insert_self _ _ a.trades;
      accounted = refl;
      segments = tt;
      well_formed =
          with_held-IsWellFormed a _ _ w
            (All-append _ _ (trade ∷ []) (held-IsHeld a _ w) ((q, refl), tt));
      elsewhere = λ j h. pending-insert_ne _ j _ a.trades h;
    }

    pub flush-marked :
        is_significant a trade ≡ true
        → flush (hold a trade) (trade_key trade) ≡ (
          with_held a (trade_key trade) [],
          ok (tick_of a false (marked (held (trade_key trade) a) trade) ∷ []),
        )
    unfolding hold is_significant tick_of threshold_for
    flush-marked m =
        flush_segment (hold a trade) (trade_key trade) (marked (held (trade_key trade) a) trade)
          (pending-insert_self _ _ a.trades ∙ sym (trades_of-marked _ trade))
          (marked-IsSegment (hold a trade) _ trade Quiet-before m)
        ∙ ap
            (λ m. (
              record a { trades = m },
              ok (tick_of a false (marked (held (trade_key trade) a) trade) ∷ []),
            ))
            (insert-insert (trade_key trade) _ [] a.trades)
