-- ===== src/Significant/Totals.antt =====
-- The totals of a tick against the trades of its segment.
use go_quant_tick.Common.{
  ◌≡◌, ◌∙◌, sym, List, [], ◌∷◌, refl, Bool, Bool-cases, inl, inr, if◌then◌else◌, Word, int_add,
  int_add_comm, int_add_assoc, nat_eq, Option, none, some, Option,
}
use go_quant_tick.Trade.{DecimalOps, DecimalLaws, TradeEvent}
use go_quant_tick.Aggregator.Measure.{
  sum_of, zero-sum_of, volumes, notionals, tick_counts, zero-int_add-int_add,
}
use go_quant_tick.Significant.{
  SignificantTradeAggregator, SignificantTrade, Summary, no_summary, summarize, context_tick,
  with_significant,
}
use go_quant_tick.Significant.Segments.{Segment, trades_of, summary, tick_of}

-- An `int` that is its own remainder.
abbrev Normal : Word → Type 0
Normal n = int_add 0 n ≡ n

-- The trades of the buy side.
unfoldable pub buys : {D : Type 0} → List (TradeEvent D) → List (TradeEvent D)
buys [] = []
buys (t ∷ rest) = let more = buys rest in if nat_eq t.tick_rule 1 then t ∷ more else more

module _ {D : Type 0} ⦃ops : DecimalOps D⦄ ⦃laws : DecimalLaws D⦄ where
  -- `s` with the sums of `l` added.
  record AddsUp (s r : Summary D) (l : List (TradeEvent D)) : Type 0 where
    total_volume : r.total_volume ≡ ops.add s.total_volume (sum_of volumes l)
    total_notional : r.total_notional ≡ ops.add s.total_notional (sum_of notionals l)
    total_buy_volume : r.total_buy_volume ≡ ops.add s.total_buy_volume (sum_of volumes (buys l))
    total_buy_notional :
        r.total_buy_notional ≡ ops.add s.total_buy_notional (sum_of notionals (buys l))
    total_ticks : int_add 0 r.total_ticks ≡ int_add s.total_ticks (sum_of tick_counts l)
    total_buy_ticks :
        int_add 0 r.total_buy_ticks ≡ int_add s.total_buy_ticks (sum_of tick_counts (buys l))

  add-zero : (a : D) → a ≡ ops.add a ops.zero_value
  add-zero a = sym (laws.zero-add a) ∙ laws.add_comm ops.zero_value a

  summary-AddsUp : (s : Summary D) (l : List (TradeEvent D)) → AddsUp s (summary s l) l
  unfolding summary summarize sum_of buys volumes notionals tick_counts
  summary-AddsUp s [] = record {
    total_volume = add-zero _;
    total_notional = add-zero _;
    total_buy_volume = add-zero _;
    total_buy_notional = add-zero _;
    total_ticks = int_add_comm _ _;
    total_buy_ticks = int_add_comm _ _;
  }
  summary-AddsUp s (t ∷ l) =
      let ih = summary-AddsUp (summarize s t) l in
      elim (Bool-cases (nat_eq t.tick_rule 1)) [
        | inl e ↦ record {
          total_volume = ih.total_volume ∙ laws.add_assoc _ _ _;
          total_notional = ih.total_notional ∙ laws.add_assoc _ _ _;
          total_buy_volume = rw e (ih.total_buy_volume ∙ rw e (laws.add_assoc _ _ _));
          total_buy_notional = rw e (ih.total_buy_notional ∙ rw e (laws.add_assoc _ _ _));
          total_ticks = ih.total_ticks ∙ int_add_assoc _ _ _;
          total_buy_ticks = rw e (ih.total_buy_ticks ∙ rw e (int_add_assoc _ _ _));
        }
        | inr e ↦ record {
          total_volume = ih.total_volume ∙ laws.add_assoc _ _ _;
          total_notional = ih.total_notional ∙ laws.add_assoc _ _ _;
          total_buy_volume = rw e (ih.total_buy_volume ∙ rw e refl);
          total_buy_notional = rw e (ih.total_buy_notional ∙ rw e refl);
          total_ticks = ih.total_ticks ∙ int_add_assoc _ _ _;
          total_buy_ticks = rw e (ih.total_buy_ticks ∙ rw e refl);
        }
      ]

  summary-Normal :
      (s : Summary D) (l : List (TradeEvent D))
      → Normal s.total_ticks × Normal s.total_buy_ticks
      → Normal (summary s l).total_ticks × Normal (summary s l).total_buy_ticks
  unfolding summary summarize
  summary-Normal s [] h = h
  summary-Normal s (t ∷ l) h = summary-Normal (summarize s t) l (
    zero-int_add-int_add _ _,
    elim (Bool-cases (nat_eq t.tick_rule 1)) [
      | inl e ↦ rw e (zero-int_add-int_add _ _)
      | inr e ↦ rw e h.1
    ],
  )

  -- Every total of a tick is the sum over the trades of its segment; the buy totals are over those
  -- with tick rule 1.
  pub record SumsUp (tick : SignificantTrade D) (l : List (TradeEvent D)) : Type 0 where
    pub total_volume : tick.total_volume ≡ sum_of volumes l
    pub total_notional : tick.total_notional ≡ sum_of notionals l
    pub total_ticks : tick.total_ticks ≡ sum_of tick_counts l
    pub total_buy_volume : tick.total_buy_volume ≡ sum_of volumes (buys l)
    pub total_buy_notional : tick.total_buy_notional ≡ sum_of notionals (buys l)
    pub total_buy_ticks : tick.total_buy_ticks ≡ sum_of tick_counts (buys l)

  with_significant-SumsUp :
      (tick : SignificantTrade D) (found : Option (TradeEvent D)) (l : List (TradeEvent D))
      → SumsUp tick l
      → SumsUp (with_significant tick found) l
  unfolding with_significant
  with_significant-SumsUp tick none l h = h
  with_significant-SumsUp tick (some t) l h = record {
    total_volume = h.total_volume;
    total_notional = h.total_notional;
    total_ticks = h.total_ticks;
    total_buy_volume = h.total_buy_volume;
    total_buy_notional = h.total_buy_notional;
    total_buy_ticks = h.total_buy_ticks;
  }

  pub tick_of-SumsUp :
      (a : SignificantTradeAggregator D) (is_late : Bool) (seg : Segment D)
      → SumsUp (tick_of a is_late seg) (trades_of seg)
  unfolding tick_of context_tick no_summary volumes notionals tick_counts
  tick_of-SumsUp a is_late seg =
      let up = summary-AddsUp (no_summary seg.first) (trades_of seg) in
      let normal = summary-Normal (no_summary seg.first) (trades_of seg) (refl, refl) in
      with_significant-SumsUp _ seg.found (trades_of seg) (record {
        total_volume = up.total_volume ∙ laws.zero-add _;
        total_notional = up.total_notional ∙ laws.zero-add _;
        total_buy_volume = up.total_buy_volume ∙ laws.zero-add _;
        total_buy_notional = up.total_buy_notional ∙ laws.zero-add _;
        total_ticks = sym normal.0 ∙ up.total_ticks ∙ zero-sum_of tick_counts (trades_of seg);
        total_buy_ticks =
            sym normal.1 ∙ up.total_buy_ticks ∙ zero-sum_of tick_counts (buys (trades_of seg));
      })
