-- ===== src/Aggregator/Safety.antt =====
-- The errors of `Add` and `Flush` of quanttick/trade_aggregator.go.
use go_quant_tick.Common.{
  ◌≡◌, true, List, [], ◌∷◌, Text, text_Eq, ok, lookup, Dict, Everywhere, Everywhere-empty,
  Everywhere-insert, Everywhere-delete, All-append, refl, Bool-cases, Option-cases, inl, inr,
  last_of, ◌∙◌, ◌⊎◌,
}
use go_quant_tick.Trade.{TradeEvent, DecimalOps, trade_key}
use go_quant_tick.Aggregator.{
  TradeAggregator, Stepped, new_trade_aggregator, add_to, add, flush, pending, same_sample,
}
use go_quant_tick.Aggregator.Sample.{
  Homogeneous, Homogeneous-last, same_sample_iff, same_sample_congr, aggregate_trades_lem,
  sample_of,
}

module _ {D : Type 0} where
  -- What is held for a key is a list of trades of one sample, which have that key.
  abbrev pub IsPending : Text → List (TradeEvent D) → Type 0
  IsPending key [] = ⊥
  IsPending key (first ∷ rest) = (trade_key first ≡ key) × Homogeneous first rest

  abbrev pub IsWellFormed : TradeAggregator D → Type 0
  IsWellFormed a = Everywhere IsPending a.trades

  pub same_sample-trade_key :
      (a b : TradeEvent D) → same_sample a b ≡ true → trade_key a ≡ trade_key b
  unfolding trade_key
  same_sample-trade_key a b h = let e = (same_sample_iff a b).0 h in rw (e.exchange, e.symbol) refl

  pub new_trade_aggregator-IsWellFormed : IsWellFormed new_trade_aggregator
  unfolding new_trade_aggregator
  new_trade_aggregator-IsWellFormed = Everywhere-empty IsPending

  -- What is pending is nothing, or a list of trades of one sample and of that key.
  abbrev pub PendingCases : Text → Dict Text (List (TradeEvent D)) → Type 0
  PendingCases key m =
      (pending key m ≡ [])
      ⊎ ((first : TradeEvent D) × (rest : List (TradeEvent D)) × (pending key m ≡ first ∷ rest)
          × (trade_key first ≡ key)
          × Homogeneous first rest)

  pending_value :
      (key : Text) (l : List (TradeEvent D)) (m : Dict Text (List (TradeEvent D)))
      → IsPending key l
      → pending key m ≡ l
      → PendingCases key m
  pending_value key [] m p e = absurd p
  pending_value key (first ∷ rest) m p e = inr (first, rest, e, p.0, p.1)

  pub pending_cases :
      (key : Text) (m : Dict Text (List (TradeEvent D)))
      → Everywhere IsPending m
      → PendingCases key m
  unfolding pending
  pending_cases key m w = elim (Option-cases (lookup key m)) [
    | inl e ↦ inl (rw (e, pending) refl)
    | inr (l, e) ↦ pending_value key l m (w.at_key key l e) (rw (e, pending) refl)
  ]

module _ {D : Type 0} ⦃ops : DecimalOps D⦄ where
  -- A call that succeeded and left a well-formed aggregator.
  abbrev pub IsSafe : Stepped D → Type 0
  IsSafe s = IsWellFormed s.0 × ((out : List (TradeEvent D)) × (s.1 ≡ ok out))

  add_to-IsSafe :
      (a : TradeAggregator D) (trade first : TradeEvent D) (rest : List (TradeEvent D))
      → IsWellFormed a
      → trade_key first ≡ trade_key trade
      → Homogeneous first rest
      → IsSafe (add_to a trade first rest)
  unfolding add_to
  add_to-IsSafe a trade first rest w k h =
      elim (Bool-cases (same_sample (last_of first rest) trade)) [
        | inl e ↦ rw e (
          Everywhere-insert IsPending _ _ _
              (
                k,
                All-append _ rest (trade ∷ []) h
                    (same_sample_congr first _ trade (Homogeneous-last first rest h) ∙ e, tt),
              )
              w,
          ([], refl),
        )
        | inr e ↦
            rw (e, aggregate_trades_lem first rest h)
              (Everywhere-insert IsPending _ _ _ (refl, tt) w, (sample_of first rest ∷ [], refl))
      ]

  -- On an aggregator in which every key holds a non-empty list of trades of that key and of one
  -- sample, `Add` returns no error and leaves such an aggregator.
  pub add-IsSafe :
      (a : TradeAggregator D) (trade : TradeEvent D) → IsWellFormed a → IsSafe (add a trade)
  unfolding add
  add-IsSafe a trade w = elim (pending_cases (trade_key trade) a.trades w) [
    | inl e ↦ rw (e, add) (Everywhere-insert IsPending _ _ _ (refl, tt) w, ([], refl))
    | inr (first, rest, e, k, h) ↦ rw (e, add) (add_to-IsSafe a trade first rest w k h)
  ]

  pub flush-IsSafe : (a : TradeAggregator D) (key : Text) → IsWellFormed a → IsSafe (flush a key)
  unfolding flush
  flush-IsSafe a key w = elim (pending_cases key a.trades w) [
    | inl e ↦ rw (e, flush) (w, ([], refl))
    | inr (first, rest, e, k, h) ↦
        rw (e, flush, aggregate_trades_lem first rest h)
          (Everywhere-delete IsPending key a.trades w, (sample_of first rest ∷ [], refl))
  ]
