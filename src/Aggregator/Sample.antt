-- ===== src/Aggregator/Sample.antt =====
-- `sameSample` and the errors of `aggregateTrades`, in quanttick/trade_aggregator.go.
use go_quant_tick.Common.{
  ◌≡◌, ◌↔◌, true, arith, text_eq_iff, All, All-last_of, List, [], ◌∷◌, ok, last_of, refl,
}
use go_quant_tick.Trade.{TradeEvent, DecimalOps}
use go_quant_tick.Aggregator.{
  same_sample, Totals, add_trade, sum_trades, aggregated, aggregate_trades, no_totals,
}

module _ {D : Type 0} where
  pub record IsSameSample (a b : TradeEvent D) : Type 0 where
    pub exchange : a.exchange ≡ b.exchange
    pub symbol : a.symbol ≡ b.symbol
    pub timestamp : a.timestamp ≡ b.timestamp
    pub nanoseconds : a.nanoseconds ≡ b.nanoseconds
    pub tick_rule : a.tick_rule ≡ b.tick_rule

  pub same_sample_iff : (a b : TradeEvent D) → (same_sample a b ≡ true) ↔ IsSameSample a b
  unfolding same_sample
  same_sample_iff a b =
      ground (arith, text_eq_iff a.exchange b.exchange, text_eq_iff a.symbol b.symbol)

  pub same_sample_refl : (a : TradeEvent D) → same_sample a a ≡ true
  same_sample_refl a = (same_sample_iff a a).1 (record {
    exchange = refl;
    symbol = refl;
    timestamp = refl;
    nanoseconds = refl;
    tick_rule = refl;
  })

  -- Samples that are the same are told apart from a third alike.
  pub same_sample_congr :
      (a b c : TradeEvent D) → same_sample a b ≡ true → same_sample a c ≡ same_sample b c
  unfolding same_sample
  same_sample_congr a b c h =
      let e = (same_sample_iff a b).0 h in
      rw (e.exchange, e.symbol, e.timestamp, e.nanoseconds, e.tick_rule) refl

  pub same_sample_symm : (a b : TradeEvent D) → same_sample a b ≡ same_sample b a
  unfolding same_sample
  same_sample_symm a b = ground (
    arith,
    text_eq_iff a.exchange b.exchange,
    text_eq_iff a.symbol b.symbol,
    text_eq_iff b.exchange a.exchange,
    text_eq_iff b.symbol a.symbol,
  )

  abbrev pub Homogeneous : TradeEvent D → List (TradeEvent D) → Type 0
  Homogeneous first rest = All (λ t. same_sample first t ≡ true) rest

  pub Homogeneous-last :
      (first : TradeEvent D) (rest : List (TradeEvent D))
      → Homogeneous first rest
      → same_sample first (last_of first rest) ≡ true
  Homogeneous-last first rest h =
      All-last_of (λ t. same_sample first t ≡ true) first rest (same_sample_refl first) h

module _ {D : Type 0} ⦃ops : DecimalOps D⦄ where
  unfoldable pub total : Totals D → List (TradeEvent D) → Totals D
  total t [] = t
  total t (trade ∷ rest) = total (add_trade t trade) rest

  -- The trade that stands for a list of trades of one sample.
  unfoldable pub sample_of : TradeEvent D → List (TradeEvent D) → TradeEvent D
  sample_of first [] = first
  sample_of first (second ∷ rest) =
      aggregated first (last_of second rest) (total no_totals (first ∷ second ∷ rest))

  sum_trades-total :
      (first : TradeEvent D) (t : Totals D) (l : List (TradeEvent D))
      → Homogeneous first l
      → sum_trades first t l ≡ ok (total t l)
  unfolding sum_trades total
  sum_trades-total first t [] h = refl
  sum_trades-total first t (x ∷ l) h = rw h.0 (sum_trades-total first (add_trade t x) l h.1)

  pub aggregate_trades_lem :
      (first : TradeEvent D) (rest : List (TradeEvent D))
      → Homogeneous first rest
      → aggregate_trades (first ∷ rest) ≡ ok (sample_of first rest)
  unfolding aggregate_trades sample_of
  aggregate_trades_lem first [] h = refl
  aggregate_trades_lem first (x ∷ rest) h =
      rw (sum_trades-total first no_totals (first ∷ x ∷ rest) (same_sample_refl first, h)) refl

  -- The aggregate has the sample of its trades.
  pub sample_of-IsSameSample :
      (first : TradeEvent D) (rest : List (TradeEvent D))
      → Homogeneous first rest
      → IsSameSample first (sample_of first rest)
  unfolding sample_of aggregate_trades
  sample_of-IsSameSample first [] h = (same_sample_iff first first).0 (same_sample_refl first)
  sample_of-IsSameSample first (x ∷ rest) h =
      let e = (same_sample_iff _ _).0 (Homogeneous-last first (x ∷ rest) h) in
      record {
        exchange = e.exchange;
        symbol = e.symbol;
        timestamp = e.timestamp;
        nanoseconds = e.nanoseconds;
        tick_rule = e.tick_rule;
      }
