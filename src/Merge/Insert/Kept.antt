-- ===== src/Merge/Insert/Kept.antt =====
-- canonicalWebSocketDataTrades of quanttick/websocket_data_merge.go on every stream, with the index
-- that its loop has for a UID.
use go_quant_tick.Common.{
  ℕ, zero, suc, ◌≡◌, Bool, true, false, ◌||◌, ◌&&◌, not, Option, none, some, List, [], ◌∷◌, ◌++◌,
  Text, text_eq, text_eq_iff, text_Eq, if◌then◌else◌, Dict, lookup, insert, lookup-insert, arith,
  refl, sym, Bool-cases, Option-cases, inl, inr, ◌⊎◌, set, get_elem?, length, All, All-append, ◌∙◌,
  subst, int_lt, All-insert_all, stable_sort, stable_sort-Sorted,
}
use go_quant_tick.Trade.{TradeEvent}
use go_quant_tick.Stream.{Stream, aggregated_trades}
use go_quant_tick.Merge.Less.{web_socket_data_trade_less}
use go_quant_tick.Merge.Less.Weak.{IsSortable, web_socket_data_trade_less-IsWeakOrder}
use go_quant_tick.Merge.Insert.{
  index_of_uid, keep_trade, keep_trades, canonical_web_socket_data_trades,
}
use go_quant_tick.Merge.Insert.Uids.{has_uid, Knows, has_uid-append, Knows-insert, Knows-blank}
use go_quant_tick.Merge.Insert.Canonical.{keep_trade_new, keep_trade_blank, has_uid_behind}
use go_quant_tick.Merge.Insert.Unique.{Distinct, has_uid_blank}
use go_quant_tick.Merge.Insert.Replace.{Distinct-stable_sort, has_uid-set, Distinct-set, All-set}
use go_quant_tick.Merge.Insert.Invariant.{IsCanonical}

module _ {D : Type 0} where
  index_of_uid_behind :
      (uid : Text) (ts : List (TradeEvent D)) (t : TradeEvent D) (i : ℕ)
      → index_of_uid uid ts ≡ some i
      → index_of_uid uid (ts ++ t ∷ []) ≡ some i
  unfolding index_of_uid
  index_of_uid_behind uid [] t i h = cc
  index_of_uid_behind uid (x ∷ ts) t i h = elim (Bool-cases (text_eq x.uid uid)) [
    | inl e ↦ ground arith
    | inr e ↦ elim (Option-cases (index_of_uid uid ts)) [
      | inl n ↦ ground arith
      | inr (j, n) ↦ ground (arith, index_of_uid_behind uid ts t j n)
    ]
  ]

  index_of_uid_last :
      (ts : List (TradeEvent D)) (t : TradeEvent D)
      → text_eq t.uid [] ≡ false
      → has_uid t.uid ts ≡ false
      → index_of_uid t.uid (ts ++ t ∷ []) ≡ some (length ts)
  unfolding index_of_uid has_uid
  index_of_uid_last [] t e h = ground (arith, text_eq_iff t.uid t.uid)
  index_of_uid_last (x ∷ ts) t e h = ground (
    arith,
    index_of_uid_last ts t,
    text_eq_iff x.uid t.uid,
    text_eq_iff x.uid [],
    text_eq_iff t.uid [],
  )

  index_of_uid-set :
      (uid : Text) (ts : List (TradeEvent D)) (i : ℕ) (t : TradeEvent D)
      → index_of_uid t.uid ts ≡ some i
      → index_of_uid uid (set ts i t) ≡ index_of_uid uid ts
  unfolding index_of_uid
  index_of_uid-set uid [] i t h = cc
  index_of_uid-set uid (x ∷ ts) zero t h = ground (arith, text_eq_iff x.uid t.uid)
  index_of_uid-set uid (x ∷ ts) (suc i) t h = ground (arith, index_of_uid-set uid ts i t)

  Distinct-append :
      (ts : List (TradeEvent D)) (t : TradeEvent D)
      → has_uid t.uid ts ≡ false
      → Distinct ts
      → Distinct (ts ++ t ∷ [])
  unfolding has_uid
  Distinct-append [] t h d = (refl, tt)
  Distinct-append (x ∷ ts) t h d = (
    ground (
      arith,
      has_uid-append x.uid ts (t ∷ []),
      d.0,
      text_eq_iff x.uid t.uid,
      text_eq_iff t.uid x.uid,
      text_eq_iff x.uid [],
      text_eq_iff t.uid [],
    ),
    Distinct-append ts t (ground arith) d.1,
  )

module _ {D : Type 0} (exchange : Text) (stream : Stream) where
  record IsTracked (kept : List (TradeEvent D) × Dict Text ℕ) : Type 0 where
    sortable : All (IsSortable exchange) kept.0
    distinct : Distinct kept.0
    known : Knows kept.1 kept.0
    indexed : (uid : Text) (i : ℕ) → lookup uid kept.1 ≡ some i → index_of_uid uid kept.0 ≡ some i

  empty-IsTracked : IsTracked ([], [])
  unfolding lookup has_uid
  empty-IsTracked = record {
    sortable = tt;
    distinct = tt;
    known = record { at_uid = λ uid. refl };
    indexed = λ uid i h. cc;
  }

  -- the loop drops a trade with a known UID, or puts it in the place of the one there
  keep_trade_cases :
      (kept : List (TradeEvent D) × Dict Text ℕ) (t : TradeEvent D) (i : ℕ)
      → text_eq t.uid [] ≡ false
      → lookup t.uid kept.1 ≡ some i
      → (keep_trade stream kept t ≡ kept) ⊎ (keep_trade stream kept t ≡ (set kept.0 i t, kept.1))
  unfolding keep_trade
  keep_trade_cases kept t i e n = elim (Bool-cases (text_eq stream aggregated_trades)) [
    | inr other ↦ inl (ground arith)
    | inl same ↦ elim (Option-cases (get_elem? kept.0 i)) [
      | inl m ↦ inl (ground arith)
      | inr (old, m) ↦ elim (Bool-cases (int_lt old.ticks t.ticks)) [
        | inl more ↦ inr (ground arith)
        | inr less ↦ inl (ground arith)
      ]
    ]
  ]

  module _ (kept : List (TradeEvent D) × Dict Text ℕ) (t : TradeEvent D) (k : IsTracked kept)
      (p : IsSortable exchange t) where
    IsTracked-new :
        text_eq t.uid [] ≡ false
        → lookup t.uid kept.1 ≡ none
        → IsTracked (kept.0 ++ t ∷ [], insert t.uid (length kept.0) kept.1)
    IsTracked-new e n =
        let fresh : has_uid t.uid kept.0 ≡ false = ground (arith, k.known.at_uid t.uid) in
        record {
          sortable = All-append (IsSortable exchange) kept.0 (t ∷ []) k.sortable (p, tt);
          distinct = Distinct-append kept.0 t fresh k.distinct;
          known =
              Knows-insert kept.1 (length kept.0) t kept.0 _ k.known e
                (λ uid. has_uid_behind exchange stream uid kept.0 t);
          indexed = λ uid i h. elim (Bool-cases (text_eq t.uid uid)) [
            | inl same ↦
                let u : t.uid ≡ uid = (text_eq_iff t.uid uid).0 same in
                ground (
                  arith,
                  index_of_uid_last kept.0 t e fresh,
                  lookup-insert t.uid uid (length kept.0) kept.1,
                )
            | inr other ↦
                index_of_uid_behind uid kept.0 t i
                  (k.indexed uid i (ground (arith, lookup-insert t.uid uid (length kept.0) kept.1)))
          ];
        }

    IsTracked-blank : text_eq t.uid [] ≡ true → IsTracked (kept.0 ++ t ∷ [], kept.1)
    IsTracked-blank e = record {
      sortable = All-append (IsSortable exchange) kept.0 (t ∷ []) k.sortable (p, tt);
      distinct = Distinct-append kept.0 t (has_uid_blank kept.0 t.uid e) k.distinct;
      known =
          Knows-blank kept.1 t kept.0 _ k.known e
            (λ uid. has_uid_behind exchange stream uid kept.0 t);
      indexed = λ uid i h. index_of_uid_behind uid kept.0 t i (k.indexed uid i h);
    }

    IsTracked-set : (i : ℕ) → lookup t.uid kept.1 ≡ some i → IsTracked (set kept.0 i t, kept.1)
    IsTracked-set i n =
        let at = k.indexed t.uid i n in
        record {
          sortable = All-set (IsSortable exchange) kept.0 i t p k.sortable;
          distinct = Distinct-set kept.0 i t at k.distinct;
          known = record {
            at_uid = λ uid. k.known.at_uid uid ∙ sym (has_uid-set uid kept.0 i t at);
          };
          indexed = λ uid j h. index_of_uid-set uid kept.0 i t at ∙ k.indexed uid j h;
        }

    keep_trade-IsTracked : IsTracked (keep_trade stream kept t)
    keep_trade-IsTracked = elim (Bool-cases (text_eq t.uid [])) [
      | inl e ↦ rw (keep_trade_blank exchange stream kept t e) (IsTracked-blank e)
      | inr e ↦ elim (Option-cases (lookup t.uid kept.1)) [
        | inl n ↦ rw (keep_trade_new exchange stream kept t e n) (IsTracked-new e n)
        | inr (i, n) ↦ elim (keep_trade_cases kept t i e n) [
          | inl same ↦ rw same k
          | inr put ↦ rw put (IsTracked-set i n)
        ]
      ]
    ]

  keep_trades-IsTracked :
      (kept : List (TradeEvent D) × Dict Text ℕ) (ts : List (TradeEvent D))
      → All (IsSortable exchange) ts
      → IsTracked kept
      → IsTracked (keep_trades stream kept ts)
  unfolding keep_trades
  keep_trades-IsTracked kept [] ps k = k
  keep_trades-IsTracked kept (t ∷ ts) ps k =
      keep_trades-IsTracked (keep_trade stream kept t) ts ps.1 (keep_trade-IsTracked kept t k ps.0)

  -- On every stream the canonical list of trades that can be sorted is sorted by the order of the
  -- stream, and has at most one trade for each UID that is not empty.
  pub canonical-IsCanonical :
      (ts : List (TradeEvent D))
      → All (IsSortable exchange) ts
      → IsCanonical exchange stream (canonical_web_socket_data_trades exchange stream ts)
  unfolding canonical_web_socket_data_trades stable_sort go_quant_tick.Common.insert_all
  canonical-IsCanonical ts ps =
      let k = keep_trades-IsTracked ([], []) ts ps empty-IsTracked in
      record {
        sortable =
            All-insert_all (web_socket_data_trade_less exchange stream) (IsSortable exchange) [] _
              tt k.sortable;
        sorted =
            stable_sort-Sorted (web_socket_data_trade_less exchange stream)
              (web_socket_data_trade_less-IsWeakOrder exchange stream) _ k.sortable;
        distinct = Distinct-stable_sort (web_socket_data_trade_less exchange stream) _ k.distinct;
      }
