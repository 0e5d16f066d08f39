-- ===== src/Merge/Less.antt =====
-- The order of trades in a bucket: webSocketDataTradeLess and the orders of UIDs, in
-- quanttick/websocket_data_merge.go.
pub mod Order
pub mod Weak
use go_quant_tick.Common.{
  ℕ, ◌≡◌, Bool, true, false, ◌&&◌, ◌||◌, not, Option, none, some, List, Text, text_eq, text_lt,
  bytes, cut_last, parse_int, ltb, nat_eq, int_lt, if◌then◌else◌, Word,
}
use go_quant_tick.Trade.{TradeEvent}
use go_quant_tick.Stream.{Stream, raw_trades}

unfoldable pub bitfinex_uid_less : Text → Text → Bool
bitfinex_uid_less left right = elim (parse_int left) [
  | none ↦ text_lt left right
  | some left_id ↦ elim (parse_int right) [
    | none ↦ text_lt left right
    | some right_id ↦ ltb left_id right_id
  ]
]

-- the part before the last colon, and the number behind it
unfoldable pub split_numeric_uid_suffix : Text → Option (Text × ℕ)
split_numeric_uid_suffix uid = elim (cut_last b':' uid) [
  | none ↦ none
  | some (prefix, suffix) ↦ elim (parse_int suffix) [ none ↦ none | some n ↦ some (prefix, n) ]
]

-- the end of `tradeUIDLess`, where the UIDs are not both numbers
unfoldable pub opaque_uid_less : Text → Text → Bool
opaque_uid_less left right = elim (split_numeric_uid_suffix left) [
  | none ↦ text_lt left right
  | some (left_prefix, left_suffix) ↦ elim (split_numeric_uid_suffix right) [
    | none ↦ text_lt left right
    | some (right_prefix, right_suffix) ↦
        if text_eq left_prefix right_prefix
        then ltb left_suffix right_suffix
        else text_lt left right
  ]
]

unfoldable pub trade_uid_less : Text → Text → Bool
trade_uid_less left right = elim (parse_int left) [
  | none ↦ opaque_uid_less left right
  | some left_id ↦ elim (parse_int right) [
    | none ↦ opaque_uid_less left right
    | some right_id ↦ ltb left_id right_id
  ]
]

-- the venues whose trade IDs are not sequences
unfoldable pub has_opaque_uids : Text → Bool
has_opaque_uids exchange =
    text_eq exchange (bytes "bybit")
    || text_eq exchange (bytes "bybit-linear")
    || text_eq exchange (bytes "bybit-inverse")
    || text_eq exchange (bytes "hyperliquid")
    || text_eq exchange (bytes "phoenix")

module _ {D : Type 0} where
  unfoldable pub web_socket_data_trade_less : Text → Stream → TradeEvent D → TradeEvent D → Bool
  web_socket_data_trade_less exchange stream left right =
      if text_eq exchange (bytes "bitfinex") && text_eq stream raw_trades
      then bitfinex_uid_less left.uid right.uid
      else if not (nat_eq left.timestamp right.timestamp)
      then ltb left.timestamp right.timestamp
      else if not (nat_eq left.nanoseconds right.nanoseconds)
      then int_lt left.nanoseconds right.nanoseconds
      else if has_opaque_uids exchange
      then false
      else trade_uid_less left.uid right.uid

  -- The UID is the decimal form of an `int64`, as the exchanges with sequences number trades.
  abbrev pub HasNumber : TradeEvent D → Type 0
  HasNumber t = (n : ℕ) × (parse_int t.uid ≡ some n)
