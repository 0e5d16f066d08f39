-- ===== src/Merge/Insert/Batch.antt =====
-- insertWebSocketDataTrade for each trade of a batch, against canonicalWebSocketDataTrades of all
-- of them, in quanttick/websocket_data_merge.go.
use go_quant_tick.Common.{
  ◌≡◌, ℕ, Dict, false, Option, none, some, List, [], ◌∷◌, ◌++◌, Text, text_eq, text_Eq, refl, All,
  All-append, Sorted, stable_sort, stable_sort-Sorted, append_assoc, append-nil, ◌∙◌, ap, lookup,
  stable_sort_of_Sorted,
}
use go_quant_tick.Trade.{TradeEvent}
use go_quant_tick.Stream.{Stream, UidSet, aggregated_trades}
use go_quant_tick.Merge.Less.{web_socket_data_trade_less}
use go_quant_tick.Merge.Less.Weak.{IsSortable, web_socket_data_trade_less-IsWeakOrder}
use go_quant_tick.Merge.Insert.{
  insert_into, insert_web_socket_data_trade, keep_trade, keep_trades,
  canonical_web_socket_data_trades, merge_web_socket_data_trades, trade_uid_set,
}
use go_quant_tick.Merge.Insert.Uids.{has_uid, Knows, trade_uid_set-Knows}
use go_quant_tick.Merge.Insert.Unique.{
  Distinct, IsApart, keep_trades-IsApart, keep_trades_of_Distinct,
}
use go_quant_tick.Merge.Insert.Canonical.{
  IsKept, Agrees, keep_trades-append, keep_trades-IsKept, insert_into-keep_trade,
}

module _ {D : Type 0} where
  -- The set that the bucket has beside its trades has their UIDs; a bucket without a set is new.
  abbrev pub Covers : Option UidSet → List (TradeEvent D) → Type 0
  Covers none trades = Unit
  Covers (some seen) trades = Knows seen trades

  -- addTrade for each trade of a list
  unfoldable pub insert_each :
      Text
      → Stream
      → List (TradeEvent D)
      → Option UidSet
      → List (TradeEvent D)
      → List (TradeEvent D) × Option UidSet
  insert_each exchange stream trades seen [] = (trades, seen)
  insert_each exchange stream trades seen (t ∷ ts) =
      let (trades', seen') = insert_web_socket_data_trade exchange stream trades seen t in
      insert_each exchange stream trades' (some seen') ts

module _ {D : Type 0} (exchange : Text) (stream : Stream) where
  Kept-empty : IsKept {D = D} exchange stream ([], [])
  unfolding lookup has_uid
  Kept-empty = record { sortable = tt; known = record { at_uid = λ uid. refl } }

  -- On a stream where the first trade with a UID stays, and for trades that can be sorted, inserting
  -- a trade into the canonical list of others, with no set of UIDs or with theirs, gives the canonical
  -- list of all of them with this one behind, and the set of its UIDs. A trade can be sorted where its
  -- venue has opaque UIDs or its own UID is a number, and its nanoseconds are a value of an int.
  pub insert_web_socket_data_trade-canonical :
      (ts : List (TradeEvent D)) (t : TradeEvent D) (seen : Option UidSet)
      → text_eq stream aggregated_trades ≡ false
      → All (IsSortable exchange) ts
      → IsSortable exchange t
      → Covers seen (canonical_web_socket_data_trades exchange stream ts)
      → let r =
          insert_web_socket_data_trade exchange stream
            (canonical_web_socket_data_trades exchange stream ts)
            seen
            t in
        (r.0 ≡ canonical_web_socket_data_trades exchange stream (ts ++ t ∷ []))
        × Knows r.1 (canonical_web_socket_data_trades exchange stream (ts ++ t ∷ []))
  unfolding insert_web_socket_data_trade canonical_web_socket_data_trades keep_trades stable_sort
      go_quant_tick.Merge.Insert.Canonical.sorted_trades
  insert_web_socket_data_trade-canonical ts t none f ps p c =
      rw (keep_trades-append exchange stream ([], []) ts (t ∷ [])) (
        insert_into-keep_trade exchange stream f (keep_trades stream ([], []) ts)
          (keep_trades-IsKept exchange stream f ([], []) ts ps Kept-empty) t p _
          (trade_uid_set-Knows _))
  insert_web_socket_data_trade-canonical ts t (some seen) f ps p c =
      rw (keep_trades-append exchange stream ([], []) ts (t ∷ [])) (
        insert_into-keep_trade exchange stream f (keep_trades stream ([], []) ts)
          (keep_trades-IsKept exchange stream f ([], []) ts ps Kept-empty) t p seen c)

  insert_each-canonical :
      (ts us : List (TradeEvent D)) (seen : Option UidSet)
      → text_eq stream aggregated_trades ≡ false
      → All (IsSortable exchange) ts
      → All (IsSortable exchange) us
      → Covers seen (canonical_web_socket_data_trades exchange stream ts)
      → (insert_each exchange stream
          (canonical_web_socket_data_trades exchange stream ts)
          seen
          us).0
        ≡ canonical_web_socket_data_trades exchange stream (ts ++ us)
  unfolding insert_each
  insert_each-canonical ts [] seen f ps qs c = rw (append-nil ts) refl
  insert_each-canonical ts (u ∷ us) seen f ps qs c =
      let one = insert_web_socket_data_trade-canonical ts u seen f ps qs.0 c in
      let seen' =
        (insert_web_socket_data_trade exchange stream
          (canonical_web_socket_data_trades exchange stream ts) seen u).1 in
      ap (λ l. (insert_each exchange stream l (some seen') us).0) one.0
      ∙ insert_each-canonical (ts ++ u ∷ []) us (some seen') f
          (All-append (IsSortable exchange) ts (u ∷ []) ps (qs.0, tt)) qs.1 one.1
      ∙ ap (canonical_web_socket_data_trades exchange stream) (append_assoc ts (u ∷ []) us)

  -- On a stream where the first trade with a UID stays, and for trades that can be sorted, inserting
  -- trades one at a time into the canonical list of existing ones gives what the merge of both lists
  -- gives.
  pub insert_each-merge :
      (existing incoming : List (TradeEvent D))
      → text_eq stream aggregated_trades ≡ false
      → All (IsSortable exchange) existing
      → All (IsSortable exchange) incoming
      → (insert_each exchange stream
          (canonical_web_socket_data_trades exchange stream existing)
          none
          incoming).0
        ≡ merge_web_socket_data_trades exchange stream existing incoming
  unfolding merge_web_socket_data_trades
  insert_each-merge existing incoming f ps qs =
      insert_each-canonical existing incoming none f ps qs tt

  module _ (ts : List (TradeEvent D)) (first_wins : text_eq stream aggregated_trades ≡ false)
      (sortable : All (IsSortable exchange) ts) where
    kept : List (TradeEvent D) × Dict Text ℕ
    kept = keep_trades stream ([], []) ts

    kept-IsKept : IsKept exchange stream kept
    unfolding kept
    kept-IsKept = keep_trades-IsKept exchange stream first_wins ([], []) ts sortable Kept-empty

    kept-IsApart : IsApart exchange stream first_wins kept
    unfolding kept lookup has_uid stable_sort
    kept-IsApart =
        keep_trades-IsApart exchange stream first_wins ([], []) ts
          (record { apart = tt; known = record { at_uid = λ uid. refl } })

    -- A canonical bucket is sorted by the order of the stream, and holds one trade for each UID, on
    -- a stream where the first trade with a UID stays.
    pub canonical-Sorted-Distinct :
        Sorted
          (web_socket_data_trade_less exchange stream)
          (canonical_web_socket_data_trades exchange stream ts)
        × Distinct (canonical_web_socket_data_trades exchange stream ts)
    unfolding canonical_web_socket_data_trades kept
    canonical-Sorted-Distinct = (
      stable_sort-Sorted (web_socket_data_trade_less exchange stream)
          (web_socket_data_trade_less-IsWeakOrder exchange stream) kept.0 kept-IsKept.sortable,
      kept-IsApart.apart,
    )

    -- On a stream where the first trade with a UID stays, and for trades that can be sorted, making
    -- a canonical list canonical again changes nothing.
    pub canonical_idem :
        canonical_web_socket_data_trades exchange stream
          (canonical_web_socket_data_trades exchange stream ts)
        ≡ canonical_web_socket_data_trades exchange stream ts
    canonical_idem =
        unfold canonical_web_socket_data_trades in
        ap (stable_sort (web_socket_data_trade_less exchange stream)) (
          keep_trades_of_Distinct exchange stream ([], []) _ Kept-empty.known
            canonical-Sorted-Distinct.1)
        ∙ stable_sort_of_Sorted (web_socket_data_trade_less exchange stream) _
            canonical-Sorted-Distinct.0
