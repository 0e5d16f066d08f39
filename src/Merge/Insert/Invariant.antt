-- ===== src/Merge/Insert/Invariant.antt =====
-- What holds of the trades of a bucket after every insertWebSocketDataTrade, on all streams, in
-- quanttick/websocket_data_merge.go.
use go_quant_tick.Common.{
  ℕ, ◌≡◌, ◌⊎◌, Bool, true, false, ◌||◌, not, Option, none, some, List, [], ◌∷◌, ◌++◌, Text, text_eq,
  text_Eq, if◌then◌else◌, Dict, lookup, insert, arith, refl, sym, Bool-cases, Option-cases, inl,
  inr, All, All-insert_all, All-insert_by, Sorted, stable_sort, stable_sort-Sorted,
  stable_sort_of_Sorted, insert_by, insert_by-Sorted, insert_at-search, length, set, get_elem?, ◌∙◌,
  ap, int_lt,
}
use go_quant_tick.Trade.{TradeEvent}
use go_quant_tick.Stream.{Stream, UidSet, aggregated_trades}
use go_quant_tick.Merge.Less.{web_socket_data_trade_less}
use go_quant_tick.Merge.Less.Weak.{IsSortable, web_socket_data_trade_less-IsWeakOrder}
use go_quant_tick.Merge.Insert.{
  insert_sorted, replace_duplicate, insert_into, insert_web_socket_data_trade,
  canonical_web_socket_data_trades, trade_uid_set, index_of_uid,
}
use go_quant_tick.Merge.Insert.Uids.{
  has_uid, Knows, has_uid-insert_by, has_uid-stable_sort, trade_uid_set-Knows, Knows-insert,
  Knows-blank,
}
use go_quant_tick.Merge.Insert.Unique.{
  Distinct, Distinct-insert_by, has_uid_blank, keep_trades_of_Distinct,
}
use go_quant_tick.Merge.Insert.Replace.{Distinct-stable_sort, has_uid-set, Distinct-set, All-set}
use go_quant_tick.Merge.Insert.Batch.{Covers}

module _ {D : Type 0} (exchange : Text) (stream : Stream) where
  -- Sorted by the order of the stream, with one trade for each UID.
  pub record IsCanonical (ts : List (TradeEvent D)) : Type 0 where
    pub sortable : All (IsSortable exchange) ts
    pub sorted : Sorted (web_socket_data_trade_less exchange stream) ts
    pub distinct : Distinct ts

  pub empty-IsCanonical : IsCanonical []
  empty-IsCanonical = record { sortable = tt; sorted = tt; distinct = tt }

  pub canonical_of_IsCanonical :
      (ts : List (TradeEvent D))
      → IsCanonical ts
      → canonical_web_socket_data_trades exchange stream ts ≡ ts
  unfolding canonical_web_socket_data_trades lookup has_uid
  canonical_of_IsCanonical ts c =
      ap (stable_sort (web_socket_data_trade_less exchange stream)) (
        keep_trades_of_Distinct exchange stream ([], []) ts (record { at_uid = λ uid. refl })
          c.distinct)
      ∙ stable_sort_of_Sorted (web_socket_data_trade_less exchange stream) ts c.sorted

  -- The trades of a bucket, and the set of their UIDs.
  abbrev pub IsIndexed : List (TradeEvent D) × UidSet → Type 0
  IsIndexed r = IsCanonical r.0 × Knows r.1 r.0

  module _ (ts : List (TradeEvent D)) (t : TradeEvent D) (c : IsCanonical ts)
      (p : IsSortable exchange t) where
    insert_sorted-insert_by :
        insert_sorted exchange stream ts t
        ≡ insert_by (web_socket_data_trade_less exchange stream) t ts
    unfolding insert_sorted
    insert_sorted-insert_by =
        insert_at-search (web_socket_data_trade_less exchange stream) t
          (web_socket_data_trade_less-IsWeakOrder exchange stream) ts p c.sortable c.sorted

    insert_sorted-IsCanonical :
        has_uid t.uid ts ≡ false → IsCanonical (insert_sorted exchange stream ts t)
    insert_sorted-IsCanonical h = rw insert_sorted-insert_by (record {
      sortable = All-insert_by (web_socket_data_trade_less exchange stream) _ t ts p c.sortable;
      sorted =
          insert_by-Sorted (web_socket_data_trade_less exchange stream)
            (web_socket_data_trade_less-IsWeakOrder exchange stream) t ts p c.sortable c.sorted;
      distinct = Distinct-insert_by (web_socket_data_trade_less exchange stream) t ts h c.distinct;
    })

    has_uid-insert_sorted :
        (uid : Text) → has_uid uid (insert_sorted exchange stream ts t) ≡ has_uid uid (t ∷ ts)
    has_uid-insert_sorted uid =
        rw insert_sorted-insert_by
          (has_uid-insert_by (web_socket_data_trade_less exchange stream) uid t ts)

    sort_set-IsIndexed :
        (seen : UidSet) (i : ℕ)
        → Knows seen ts
        → index_of_uid t.uid ts ≡ some i
        → IsIndexed (stable_sort (web_socket_data_trade_less exchange stream) (set ts i t), seen)
    unfolding stable_sort go_quant_tick.Common.insert_all
    sort_set-IsIndexed seen i k e =
        let sortable = All-set (IsSortable exchange) ts i t p c.sortable in
        (
          record {
            sortable =
                All-insert_all (web_socket_data_trade_less exchange stream) (IsSortable exchange) []
                  (set ts i t) tt sortable;
            sorted =
                stable_sort-Sorted (web_socket_data_trade_less exchange stream)
                  (web_socket_data_trade_less-IsWeakOrder exchange stream) (set ts i t) sortable;
            distinct =
                Distinct-stable_sort (web_socket_data_trade_less exchange stream) (set ts i t)
                  (Distinct-set ts i t e c.distinct);
          },
          record {
            at_uid = λ uid.
                k.at_uid uid
                ∙ sym (has_uid-set uid ts i t e)
                ∙ sym (
                    has_uid-stable_sort (web_socket_data_trade_less exchange stream) uid
                      (set ts i t));
          },
        )

    replace_duplicate_cases :
        (replace_duplicate exchange stream ts t ≡ ts)
        ⊎ ((i : ℕ) × (index_of_uid t.uid ts ≡ some i)
            × (replace_duplicate exchange stream ts t
                ≡ stable_sort (web_socket_data_trade_less exchange stream) (set ts i t)))
    unfolding replace_duplicate
    replace_duplicate_cases = elim (Bool-cases (text_eq stream aggregated_trades)) [
      | inr other ↦ inl (rw other refl)
      | inl same ↦ elim (Option-cases (index_of_uid t.uid ts)) [
        | inl n ↦ inl (rw (same, n) refl)
        | inr (i, e) ↦ elim (Option-cases (get_elem? ts i)) [
          | inl n ↦ inl (ground arith)
          | inr (old, n) ↦ elim (Bool-cases (int_lt old.ticks t.ticks)) [
            | inl more ↦ inr (i, e, ground arith)
            | inr less ↦ inl (ground arith)
          ]
        ]
      ]
    ]

    replace_duplicate-IsIndexed :
        (seen : UidSet) → Knows seen ts → IsIndexed (replace_duplicate exchange stream ts t, seen)
    replace_duplicate-IsIndexed seen k = elim replace_duplicate_cases [
      | inl e ↦ rw e (c, k)
      | inr (i, e, same) ↦ rw same (sort_set-IsIndexed seen i k e)
    ]

    insert_into-IsIndexed :
        (seen : UidSet) → Knows seen ts → IsIndexed (insert_into exchange stream ts seen t)
    unfolding insert_into
    insert_into-IsIndexed seen k = elim (Bool-cases (text_eq t.uid [])) [
      | inl e ↦ rw e (
        insert_sorted-IsCanonical (has_uid_blank ts t.uid e),
        Knows-blank seen t ts _ k e has_uid-insert_sorted,
      )
      | inr e ↦ elim (Option-cases (lookup t.uid seen)) [
        | inl n ↦
            rw (e, n)
              (
                insert_sorted-IsCanonical (ground (arith, k.at_uid t.uid)),
                Knows-insert seen tt t ts _ k e has_uid-insert_sorted,
              )
        | inr (u, n) ↦ rw (e, n) (replace_duplicate-IsIndexed seen k)
      ]
    ]

  -- On every stream, inserting a trade that can be sorted into a sorted list of trades with one
  -- trade for each UID leaves such a list, and the set of its UIDs, be the trade new, a duplicate
  -- that is dropped, or one that takes the place of the trade with its UID.
  pub insert_web_socket_data_trade-IsIndexed :
      (ts : List (TradeEvent D)) (seen : Option UidSet) (t : TradeEvent D)
      → IsCanonical ts
      → Covers seen ts
      → IsSortable exchange t
      → IsIndexed (insert_web_socket_data_trade exchange stream ts seen t)
  unfolding insert_web_socket_data_trade
  insert_web_socket_data_trade-IsIndexed ts none t c k p =
      insert_into-IsIndexed ts t c p (trade_uid_set ts) (trade_uid_set-Knows ts)
  insert_web_socket_data_trade-IsIndexed ts (some seen) t c k p =
      insert_into-IsIndexed ts t c p seen k
