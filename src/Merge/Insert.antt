-- ===== src/Merge/Insert.antt =====
-- Where trades enter a bucket: insertWebSocketDataTrade, canonicalWebSocketDataTrades,
-- mergeWebSocketDataTrades and tradeUIDSet, in quanttick/websocket_data_merge.go.
pub mod Uids
pub mod Canonical
pub mod Unique
pub mod Batch
pub mod Replace
pub mod Invariant
pub mod Kept
use go_quant_tick.Common.{
  ℕ, zero, suc, Bool, true, false, not, Option, none, some, List, [], ◌∷◌, ◌++◌, Text, text_eq,
  text_Eq, nat_eq, leb, int_lt, if◌then◌else◌, Dict, lookup, insert, length, get_elem?, set,
  stable_sort, search, test_at, insert_at,
}
use go_quant_tick.Trade.{TradeEvent}
use go_quant_tick.Stream.{Stream, UidSet, aggregated_trades}
use go_quant_tick.Merge.Less.{web_socket_data_trade_less}

module _ {D : Type 0} where
  add_uids : UidSet → List (TradeEvent D) → UidSet
  add_uids seen [] = seen
  add_uids seen (t ∷ ts) =
      add_uids (if not (text_eq t.uid []) then insert t.uid tt seen else seen) ts

  unfoldable pub trade_uid_set : List (TradeEvent D) → UidSet
  unfolding add_uids
  trade_uid_set trades = add_uids [] trades

  -- the first index with the UID
  unfoldable pub index_of_uid : Text → List (TradeEvent D) → Option ℕ
  index_of_uid uid [] = none
  index_of_uid uid (t ∷ ts) = elim (text_eq t.uid uid) [
    | true ↦ some 0
    | false ↦ elim (index_of_uid uid ts) [ none ↦ none | some i ↦ some (suc i) ]
  ]

  unfoldable pub insert_sorted :
      Text → Stream → List (TradeEvent D) → TradeEvent D → List (TradeEvent D)
  insert_sorted exchange stream trades trade =
      insert_at
        (search (length trades) (test_at (web_socket_data_trade_less exchange stream trade) trades))
        trade trades

  -- what happens to a trade whose UID is in the bucket
  unfoldable pub replace_duplicate :
      Text → Stream → List (TradeEvent D) → TradeEvent D → List (TradeEvent D)
  replace_duplicate exchange stream trades trade =
      if not (text_eq stream aggregated_trades)
      then trades
      else elim (index_of_uid trade.uid trades) [
        | none ↦ trades
        | some index ↦ elim (get_elem? trades index) [
          | none ↦ trades
          | some old ↦
              if not (int_lt old.ticks trade.ticks)
              then trades
              else stable_sort (web_socket_data_trade_less exchange stream) (set trades index trade)
        ]
      ]

  unfoldable pub insert_into :
      Text → Stream → List (TradeEvent D) → UidSet → TradeEvent D → List (TradeEvent D) × UidSet
  insert_into exchange stream trades seen trade =
      if not (text_eq trade.uid [])
      then (elim (lookup trade.uid seen) [
        | some _ ↦ (replace_duplicate exchange stream trades trade, seen)
        | none ↦ (insert_sorted exchange stream trades trade, insert trade.uid tt seen)
      ])
      else (insert_sorted exchange stream trades trade, seen)

  unfoldable pub insert_web_socket_data_trade :
      Text
      → Stream
      → List (TradeEvent D)
      → Option UidSet
      → TradeEvent D
      → List (TradeEvent D) × UidSet
  unfolding insert_into
  insert_web_socket_data_trade exchange stream trades seen trade =
      insert_into exchange stream trades (elim seen [ none ↦ trade_uid_set trades | some s ↦ s ])
        trade

  -- the loop of `canonicalWebSocketDataTrades`: the trades kept, and their indices by UID
  unfoldable pub keep_trade :
      Stream → List (TradeEvent D) × Dict Text ℕ → TradeEvent D → List (TradeEvent D) × Dict Text ℕ
  keep_trade stream (canonical, seen) trade =
      if not (text_eq trade.uid [])
      then (elim (lookup trade.uid seen) [
        | some index ↦ (
          (if text_eq stream aggregated_trades
              then (elim (get_elem? canonical index) [
                | none ↦ canonical
                | some old ↦
                    if int_lt old.ticks trade.ticks then set canonical index trade else canonical
              ])
              else canonical),
          seen,
        )
        | none ↦ (canonical ++ trade ∷ [], insert trade.uid (length canonical) seen)
      ])
      else (canonical ++ trade ∷ [], seen)

  unfoldable pub keep_trades :
      Stream
      → List (TradeEvent D) × Dict Text ℕ
      → List (TradeEvent D)
      → List (TradeEvent D) × Dict Text ℕ
  keep_trades stream kept [] = kept
  keep_trades stream kept (t ∷ ts) = keep_trades stream (keep_trade stream kept t) ts

  unfoldable pub canonical_web_socket_data_trades :
      Text → Stream → List (TradeEvent D) → List (TradeEvent D)
  unfolding keep_trade keep_trades
  canonical_web_socket_data_trades exchange stream trades =
      stable_sort (web_socket_data_trade_less exchange stream)
        (keep_trades stream ([], []) trades).0

  unfoldable pub merge_web_socket_data_trades :
      Text → Stream → List (TradeEvent D) → List (TradeEvent D) → List (TradeEvent D)
  merge_web_socket_data_trades exchange stream existing incoming =
      canonical_web_socket_data_trades exchange stream (existing ++ incoming)
