-- ===== src/Merge/Insert/Canonical.antt =====
-- Trades that enter a bucket one at a time, by insertWebSocketDataTrade, and all at once, by
-- canonicalWebSocketDataTrades and mergeWebSocketDataTrades, in quanttick/websocket_data_merge.go.
use go_quant_tick.Common.{
  ℕ, ◌≡◌, Bool, true, false, ◌||◌, not, Option, none, some, List, [], ◌∷◌, ◌++◌, Text, text_eq,
  text_Eq, if◌then◌else◌, Dict, lookup, insert, arith, refl, sym, Bool-cases, Option-cases, inl,
  inr, All, All-append, All-insert_all, Sorted, stable_sort, stable_sort-append, stable_sort-Sorted,
  insert_by, insert_at-search, append_assoc, append-nil, length, ◌∙◌, ap,
}
use go_quant_tick.Trade.{TradeEvent}
use go_quant_tick.Stream.{Stream, UidSet, aggregated_trades}
use go_quant_tick.Merge.Less.{web_socket_data_trade_less}
use go_quant_tick.Merge.Less.Weak.{IsSortable, web_socket_data_trade_less-IsWeakOrder}
use go_quant_tick.Merge.Insert.{
  insert_sorted, replace_duplicate, insert_into, keep_trade, keep_trades,
}
use go_quant_tick.Merge.Insert.Uids.{
  is_known, has_uid, Knows, has_uid-append, has_uid-stable_sort, Knows-insert, Knows-blank,
}

module _ {D : Type 0} (exchange : Text) (stream : Stream) where
  pub keep_trades-append :
      (kept : List (TradeEvent D) × Dict Text ℕ) (xs ys : List (TradeEvent D))
      → keep_trades stream kept (xs ++ ys) ≡ keep_trades stream (keep_trades stream kept xs) ys
  unfolding keep_trades
  keep_trades-append kept [] ys = refl
  keep_trades-append kept (x ∷ xs) ys = keep_trades-append (keep_trade stream kept x) xs ys

  -- The trades kept can be sorted, and the index map has exactly their UIDs.
  pub record IsKept (kept : List (TradeEvent D) × Dict Text ℕ) : Type 0 where
    pub sortable : All (IsSortable exchange) kept.0
    pub known : Knows kept.1 kept.0

  pub keep_trade_new :
      (kept : List (TradeEvent D) × Dict Text ℕ) (t : TradeEvent D)
      → text_eq t.uid [] ≡ false
      → lookup t.uid kept.1 ≡ none
      → keep_trade stream kept t ≡ (kept.0 ++ t ∷ [], insert t.uid (length kept.0) kept.1)
  unfolding keep_trade
  keep_trade_new kept t e h = rw (e, h) refl

  pub keep_trade_blank :
      (kept : List (TradeEvent D) × Dict Text ℕ) (t : TradeEvent D)
      → text_eq t.uid [] ≡ true
      → keep_trade stream kept t ≡ (kept.0 ++ t ∷ [], kept.1)
  unfolding keep_trade
  keep_trade_blank kept t e = rw e refl

  pub has_uid_behind :
      (uid : Text) (ts : List (TradeEvent D)) (t : TradeEvent D)
      → has_uid uid (ts ++ t ∷ []) ≡ has_uid uid (t ∷ ts)
  unfolding has_uid
  has_uid_behind uid ts t = ground (arith, has_uid-append uid ts (t ∷ []))

  module _ (first_wins : text_eq stream aggregated_trades ≡ false) where
    -- What the loop keeps of a further trade.
    pub keep_trade_known :
        (kept : List (TradeEvent D) × Dict Text ℕ) (t : TradeEvent D) (i : ℕ)
        → text_eq t.uid [] ≡ false
        → lookup t.uid kept.1 ≡ some i
        → keep_trade stream kept t ≡ kept
    unfolding keep_trade
    keep_trade_known kept t i e h = rw (e, h, first_wins) refl

    pub keep_trade-IsKept :
        (kept : List (TradeEvent D) × Dict Text ℕ) (t : TradeEvent D)
        → IsSortable exchange t
        → IsKept kept
        → IsKept (keep_trade stream kept t)
    keep_trade-IsKept kept t p k = elim (Bool-cases (text_eq t.uid [])) [
      | inl e ↦ rw (keep_trade_blank kept t e) (record {
        sortable = All-append (IsSortable exchange) kept.0 (t ∷ []) k.sortable (p, tt);
        known = Knows-blank kept.1 t kept.0 _ k.known e (λ uid. has_uid_behind uid kept.0 t);
      })
      | inr e ↦ elim (Option-cases (lookup t.uid kept.1)) [
        | inl h ↦ rw (keep_trade_new kept t e h) (record {
          sortable = All-append (IsSortable exchange) kept.0 (t ∷ []) k.sortable (p, tt);
          known =
              Knows-insert kept.1 (length kept.0) t kept.0 _ k.known e
                (λ uid. has_uid_behind uid kept.0 t);
        })
        | inr (i, h) ↦ rw (keep_trade_known kept t i e h) k
      ]
    ]

    pub keep_trades-IsKept :
        (kept : List (TradeEvent D) × Dict Text ℕ) (ts : List (TradeEvent D))
        → All (IsSortable exchange) ts
        → IsKept kept
        → IsKept (keep_trades stream kept ts)
    unfolding keep_trades
    keep_trades-IsKept kept [] p k = k
    keep_trades-IsKept kept (t ∷ ts) p k =
        keep_trades-IsKept (keep_trade stream kept t) ts p.1 (keep_trade-IsKept kept t p.0 k)

    module _ (kept : List (TradeEvent D) × Dict Text ℕ) (k : IsKept kept) (t : TradeEvent D)
        (p : IsSortable exchange t) where
      unfoldable pub sorted_trades : List (TradeEvent D)
      sorted_trades = stable_sort (web_socket_data_trade_less exchange stream) kept.0

      unfoldable pub with_trade : List (TradeEvent D)
      with_trade = stable_sort (web_socket_data_trade_less exchange stream) (kept.0 ++ t ∷ [])

      insert_sorted-sorted : insert_sorted exchange stream sorted_trades t ≡ with_trade
      unfolding insert_sorted sorted_trades with_trade go_quant_tick.Common.insert_all stable_sort
      insert_sorted-sorted =
          insert_at-search (web_socket_data_trade_less exchange stream) t
            (web_socket_data_trade_less-IsWeakOrder exchange stream) _ p
            (All-insert_all (web_socket_data_trade_less exchange stream) (IsSortable exchange) []
              kept.0 tt k.sortable)
            (stable_sort-Sorted (web_socket_data_trade_less exchange stream)
              (web_socket_data_trade_less-IsWeakOrder exchange stream) kept.0 k.sortable)
          ∙ sym (stable_sort-append (web_socket_data_trade_less exchange stream) kept.0 t)

      has_uid-with_trade : (uid : Text) → has_uid uid with_trade ≡ has_uid uid (t ∷ sorted_trades)
      unfolding has_uid sorted_trades with_trade
      has_uid-with_trade uid = ground (
        arith,
        has_uid-stable_sort (web_socket_data_trade_less exchange stream) uid (kept.0 ++ t ∷ []),
        has_uid-stable_sort (web_socket_data_trade_less exchange stream) uid kept.0,
        has_uid_behind uid kept.0 t,
      )

      -- The result of one insertion: the trades of the loop, sorted, and their UIDs.
      abbrev pub Agrees : List (TradeEvent D) × UidSet → List (TradeEvent D) → Type 0
      Agrees r trades = (r.0 ≡ trades) × Knows r.1 trades

      same_known :
          (seen : UidSet) → Knows seen sorted_trades → is_known t.uid seen ≡ is_known t.uid kept.1
      unfolding sorted_trades
      same_known seen h = ground (
        arith,
        h.at_uid t.uid,
        k.known.at_uid t.uid,
        has_uid-stable_sort (web_socket_data_trade_less exchange stream) t.uid kept.0,
      )

      insert_into_blank :
          (seen : UidSet)
          → Knows seen sorted_trades
          → text_eq t.uid [] ≡ true
          → Agrees (insert_into exchange stream sorted_trades seen t) with_trade
      unfolding insert_into
      insert_into_blank seen h e =
          rw e (
            insert_sorted-sorted,
            Knows-blank seen t sorted_trades with_trade h e has_uid-with_trade,
          )

      insert_into_new :
          (seen : UidSet)
          → Knows seen sorted_trades
          → text_eq t.uid [] ≡ false
          → lookup t.uid seen ≡ none
          → Agrees (insert_into exchange stream sorted_trades seen t) with_trade
      unfolding insert_into
      insert_into_new seen h e n =
          rw (e, n)
            (
              insert_sorted-sorted,
              Knows-insert seen tt t sorted_trades with_trade h e has_uid-with_trade,
            )

      insert_into_known :
          (seen : UidSet) (u : Unit {0})
          → Knows seen sorted_trades
          → text_eq t.uid [] ≡ false
          → lookup t.uid seen ≡ some u
          → Agrees (insert_into exchange stream sorted_trades seen t) sorted_trades
      unfolding insert_into replace_duplicate
      insert_into_known seen u h e n = rw (e, n, first_wins) (refl, h)

      pub insert_into-keep_trade :
          (seen : UidSet)
          → Knows seen sorted_trades
          → Agrees (insert_into exchange stream sorted_trades seen t) (
              stable_sort (web_socket_data_trade_less exchange stream) (keep_trade stream kept t).0)
      unfolding sorted_trades with_trade
      insert_into-keep_trade seen h = elim (Bool-cases (text_eq t.uid [])) [
        | inl e ↦ rw (keep_trade_blank kept t e) (insert_into_blank seen h e)
        | inr e ↦ elim (Option-cases (lookup t.uid seen)) [
          | inl n ↦ elim (Option-cases (lookup t.uid kept.1)) [
            | inl m ↦ rw (keep_trade_new kept t e m) (insert_into_new seen h e n)
            | inr (i, m) ↦ ground (arith, same_known seen h)
          ]
          | inr (u, n) ↦ elim (Option-cases (lookup t.uid kept.1)) [
            | inl m ↦ ground (arith, same_known seen h)
            | inr (i, m) ↦ rw (keep_trade_known kept t i e m) (insert_into_known seen u h e n)
          ]
        ]
      ]
