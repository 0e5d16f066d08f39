-- ===== src/Aggregator/Measure.antt =====
-- Sums over trades that an aggregate of them keeps: of volumes, of notionals and of ticks.
use go_quant_tick.Common.{
  ◌≡◌, ◌∙◌, sym, ap, List, [], ◌∷◌, ◌++◌, refl, Word, int_add, int_add_comm, int_add_assoc, arith,
}
use go_quant_tick.Trade.{DecimalOps, DecimalLaws, TradeEvent}
use go_quant_tick.Aggregator.{Totals, add_trade, no_totals, aggregated}
use go_quant_tick.Aggregator.Sample.{total, sample_of}

-- A number of each trade and of the loop's totals, with a sum. On a machine word the sum of one
-- number and 0 may differ from the number, so 0 is neutral for sums only.
pub record Measure (D M : Type 0) ⦃ops : DecimalOps D⦄ : Type 0 where
  pub zero : M
  pub plus : M → M → M
  pub of_trade : TradeEvent D → M
  pub of_totals : Totals D → M
  pub comm : (a b : M) → plus a b ≡ plus b a
  pub assoc : (a b c : M) → plus (plus a b) c ≡ plus a (plus b c)
  pub zero_zero : plus zero zero ≡ zero
  pub zero_plus : (a b : M) → plus zero (plus a b) ≡ plus a b
  pub of_no_totals : of_totals no_totals ≡ zero
  pub of_add_trade :
      (t : Totals D) (x : TradeEvent D)
      → of_totals (add_trade t x) ≡ plus (of_totals t) (of_trade x)
  pub of_aggregated :
      (a b : TradeEvent D) (t : Totals D) → of_trade (aggregated a b t) ≡ of_totals t

module _ {D : Type 0} ⦃ops : DecimalOps D⦄ ⦃laws : DecimalLaws D⦄ where
  unfoldable pub volumes : Measure D D
  unfolding no_totals add_trade aggregated
  volumes = record {
    zero = ops.zero_value;
    plus = ops.add;
    of_trade = λ t. t.volume;
    of_totals = λ t. t.volume;
    comm = laws.add_comm;
    assoc = laws.add_assoc;
    zero_zero = laws.zero-add ops.zero_value;
    zero_plus = λ a b. laws.zero-add (ops.add a b);
    of_no_totals = refl;
    of_add_trade = λ t x. refl;
    of_aggregated = λ a b t. refl;
  }

  unfoldable pub notionals : Measure D D
  unfolding no_totals add_trade aggregated
  notionals = record {
    zero = ops.zero_value;
    plus = ops.add;
    of_trade = λ t. t.notional;
    of_totals = λ t. t.notional;
    comm = laws.add_comm;
    assoc = laws.add_assoc;
    zero_zero = laws.zero-add ops.zero_value;
    zero_plus = λ a b. laws.zero-add (ops.add a b);
    of_no_totals = refl;
    of_add_trade = λ t x. refl;
    of_aggregated = λ a b t. refl;
  }

pub zero-int_add-int_add : (a b : Word) → int_add 0 (int_add a b) ≡ int_add a b
unfolding int_add
zero-int_add-int_add a b = omega arith

module _ {D : Type 0} ⦃ops : DecimalOps D⦄ where
  unfoldable pub tick_counts : Measure D Word
  unfolding no_totals add_trade aggregated int_add
  tick_counts = record {
    zero = 0;
    plus = int_add;
    of_trade = λ t. t.ticks;
    of_totals = λ t. t.ticks;
    comm = int_add_comm;
    assoc = int_add_assoc;
    zero_zero = refl;
    zero_plus = zero-int_add-int_add;
    of_no_totals = refl;
    of_add_trade = λ t x. refl;
    of_aggregated = λ a b t. refl;
  }

module _ {D M : Type 0} ⦃ops : DecimalOps D⦄ (m : Measure D M) where
  open m use {plus, of_trade, of_totals}

  unfoldable pub sum_of : List (TradeEvent D) → M
  sum_of [] = m.zero
  sum_of (t ∷ rest) = plus (of_trade t) (sum_of rest)

  plus_zero : (a b : M) → plus a (plus b m.zero) ≡ plus a b
  plus_zero a b = sym (m.assoc a b m.zero) ∙ m.comm (plus a b) m.zero ∙ m.zero_plus a b

  pub zero-sum_of : (l : List (TradeEvent D)) → plus m.zero (sum_of l) ≡ sum_of l
  unfolding sum_of
  zero-sum_of [] = m.zero_zero
  zero-sum_of (t ∷ rest) = m.zero_plus (of_trade t) (sum_of rest)

  pub sum_of-zero : (l : List (TradeEvent D)) → plus (sum_of l) m.zero ≡ sum_of l
  sum_of-zero l = m.comm (sum_of l) m.zero ∙ zero-sum_of l

  pub sum_of-append :
      (xs ys : List (TradeEvent D)) → sum_of (xs ++ ys) ≡ plus (sum_of xs) (sum_of ys)
  unfolding sum_of
  sum_of-append [] ys = sym (zero-sum_of ys)
  sum_of-append (x ∷ xs) ys = rw (sum_of-append xs ys) (sym (m.assoc _ _ _))

  of_totals-total :
      (t : Totals D) (x : TradeEvent D) (l : List (TradeEvent D))
      → of_totals (total t (x ∷ l)) ≡ plus (of_totals t) (sum_of (x ∷ l))
  unfolding total sum_of
  of_totals-total t x [] = m.of_add_trade t x ∙ sym (plus_zero _ _)
  of_totals-total t x (y ∷ l) =
      of_totals-total (add_trade t x) y l ∙ rw (m.of_add_trade t x) (m.assoc _ _ _)

  -- The aggregate measures as much as its trades.
  pub of_trade-sample_of :
      (first : TradeEvent D) (rest : List (TradeEvent D)) (z : M)
      → plus (of_trade (sample_of first rest)) z ≡ plus (sum_of (first ∷ rest)) z
  unfolding sample_of sum_of
  of_trade-sample_of first [] z = m.comm _ z ∙ sym (plus_zero z (of_trade first)) ∙ m.comm z _
  of_trade-sample_of first (x ∷ rest) z =
      ap (λ a. plus a z)
        (m.of_aggregated _ _ _
          ∙ of_totals-total no_totals first (x ∷ rest)
          ∙ rw m.of_no_totals (m.zero_plus _ _))
