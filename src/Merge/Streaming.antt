-- ===== src/Merge/Streaming.antt =====
-- The stateful aggregator of quanttick/trade_aggregator.go against the batch routine of
-- quanttick/websocket_data_merge.go.
use go_quant_tick.Common.{
  ◌≡◌, ◌∙◌, sym, true, false, List, [], ◌∷◌, ◌++◌, Text, text_Eq, Result, ok, err, ◌>>=◌, refl,
  Bool-cases, inl, inr, All, All-append, last_of, insert,
}
use go_quant_tick.Trade.{DecimalOps, TradeEvent, trade_key}
use go_quant_tick.Aggregator.{
  TradeAggregator, AggregateError, same_sample, pending, add, add_to, flush,
}
use go_quant_tick.Aggregator.Pending.{pending-insert_self}
use go_quant_tick.Aggregator.Sample.{
  Homogeneous, Homogeneous-last, same_sample_congr, aggregate_trades_lem, sample_of,
}
use go_quant_tick.Merge.Coalesce.{coalesce_from, aggregate_trade_events}

>>=-ok {ℓ} : {A : Type ℓ} (r : Result AggregateError A) → (r >>= λ x. ok x) ≡ r
>>=-ok (ok a) = refl
>>=-ok (err e) = refl

module _ {D : Type 0} ⦃ops : DecimalOps D⦄ where
  -- The samples of a sequence of calls of `Add` and a last `Flush`.
  unfoldable pub collect :
      TradeAggregator D → List (TradeEvent D) → Text → Result AggregateError (List (TradeEvent D))
  collect a [] key = (flush a key).1
  collect a (trade ∷ rest) key =
      let (a', r) = add a trade in r >>= λ out. collect a' rest key >>= λ more. ok (out ++ more)

  module _ (a : TradeAggregator D) (trade first : TradeEvent D) (rest : List (TradeEvent D))
      (p : pending (trade_key trade) a.trades ≡ first ∷ rest) (h : Homogeneous first rest) where
    same_last : same_sample (last_of first rest) trade ≡ same_sample first trade
    same_last =
        sym (same_sample_congr first (last_of first rest) trade (Homogeneous-last first rest h))

    add_same :
        same_sample first trade ≡ true
        → add a trade ≡ (
          record { trades = insert (trade_key trade) (first ∷ (rest ++ trade ∷ [])) a.trades },
          ok [],
        )
    unfolding add add_to
    add_same e = rw (p, add, same_last, e) refl

    add_other :
        same_sample first trade ≡ false
        → add a trade ≡ (
          record { trades = insert (trade_key trade) (trade ∷ []) a.trades },
          ok (sample_of first rest ∷ []),
        )
    unfolding add add_to
    add_other e = rw (p, add, same_last, e, aggregate_trades_lem first rest h) refl

  collect_from :
      (a : TradeAggregator D) (key : Text) (first : TradeEvent D)
      (rest trades : List (TradeEvent D))
      → pending key a.trades ≡ first ∷ rest
      → Homogeneous first rest
      → All (λ t. trade_key t ≡ key) trades
      → collect a trades key ≡ coalesce_from first rest trades
  unfolding collect coalesce_from flush
  collect_from a key first rest [] p h k =
      rw (p, collect, flush, aggregate_trades_lem first rest h) refl
  collect_from a key first rest (trade ∷ trades) p h k =
      let p' : pending (trade_key trade) a.trades ≡ first ∷ rest = rw k.0 p in
      elim (Bool-cases (same_sample first trade)) [
        | inl e ↦
            rw (add_same a trade first rest p' h e, e, coalesce_from)
              (>>=-ok _
                ∙ collect_from _ key first (rest ++ trade ∷ []) trades
                    (rw k.0 (pending-insert_self key _ a.trades))
                    (All-append _ rest (trade ∷ []) h (e, tt)) k.1)
        | inr e ↦
            rw
              (
                add_other a trade first rest p' h e,
                e,
                coalesce_from,
                aggregate_trades_lem first rest h,
              )
              (rw
                (collect_from (record { trades = insert (trade_key trade) (trade ∷ []) a.trades })
                  key trade [] trades (rw k.0 (pending-insert_self key _ a.trades)) tt k.1)
                refl)
      ]

  -- Adding the trades of one key one at a time to an aggregator that holds none for it, and then
  -- flushing the key, returns the samples of the batch routine, in its order.
  pub collect-eq-aggregate_trade_events :
      (a : TradeAggregator D) (key : Text) (trades : List (TradeEvent D))
      → pending key a.trades ≡ []
      → All (λ t. trade_key t ≡ key) trades
      → collect a trades key ≡ aggregate_trade_events trades
  unfolding collect aggregate_trade_events flush
  collect-eq-aggregate_trade_events a key [] p k = rw (p, collect, flush) refl
  collect-eq-aggregate_trade_events a key (trade ∷ trades) p k =
      let p' : pending (trade_key trade) a.trades ≡ [] = rw k.0 p in
      let e : add a trade
          ≡ (record { trades = insert (trade_key trade) (trade ∷ []) a.trades }, ok []) =
        unfold add in rw (p', add) refl in
      rw e (
        >>=-ok _
        ∙ collect_from _ key trade [] trades (rw k.0 (pending-insert_self key _ a.trades)) tt k.1)
