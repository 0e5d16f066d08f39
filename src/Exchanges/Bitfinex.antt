-- ===== src/Exchanges/Bitfinex.antt =====
-- quanttick/exchanges/bitfinex.go: the adapter of Bitfinex, which announces a trade by "te" and gives
-- it by "tu". The trades are emitted in the order of the announcements.
pub mod Pending
pub mod Order
pub mod Messages
pub mod Recovery
pub mod Session
use go_quant_tick.Common.{
  ℕ, ◌+◌, ◌≡◌, Bool, true, false, ◌&&◌, ◌||◌, not, Option, none, some, List, [], ◌∷◌, ◌++◌, Text,
  Word, text_Eq, nat_Eq, Dict, lookup, insert, delete, bytes, nat_eq, text_eq, trim_space, ltb,
  has_prefix, if◌then◌else◌, Result, ok, err, ◌>>=◌, int_lt, int_add, minus_one, format_int, map,
}
use go_quant_tick.Trade.{Time, Duration, DecimalOps, TradeEvent, new_trade_event}
use go_quant_tick.Exchanges.Protocol.{Json, parse_raw_decimal, parse_raw_int64, unix_milli}

abbrev pub bitfinex_name : Text
bitfinex_name = bytes "bitfinex"

abbrev pub bitfinex_subscription_buffer_limit : ℕ
bitfinex_subscription_buffer_limit = 10000

pub record BitfinexTradeUpdate (D : Type 0) : Type 0 where
  pub trade_id : Word
  pub timestamp_millis : Word
  pub notional : D
  pub price : D
  pub tick_rule : Word
  pub received_at : Time

pub data BitfinexError : Type 0 where
  parse_event : BitfinexError
  unexpected_channel : Text → BitfinexError
  unexpected_symbol : Text → BitfinexError
  parse_channel_id : BitfinexError
  changed_symbol : Word → (from to : Text) → BitfinexError
  protocol_error : Word → Text → BitfinexError
  lifecycle : Word → Text → BitfinexError
  platform_unavailable : Word → BitfinexError
  info_error : Word → Text → BitfinexError
  unsubscribed : BitfinexError
  parse_array : BitfinexError
  parse_tag : BitfinexError
  parse_trade : BitfinexError
  parse_trade_id : BitfinexError
  parse_timestamp : BitfinexError
  parse_notional : BitfinexError
  parse_price : BitfinexError
  buffer_exceeded : BitfinexError
  read_failed : BitfinexError
  acknowledgement_timed_out : BitfinexError
  context_ended : BitfinexError
  parse_recovered_id : Text → BitfinexError
  fetch_failed : BitfinexError
  cursor_not_found : Word → BitfinexError
  did_not_advance : BitfinexError
  too_many_pages : Word → BitfinexError
  dial_failed : BitfinexError

-- The parts of the adapter that its operations read. A symbol that has no entry in a map of lists or
-- maps has an empty one.
pub record Bitfinex (D : Type 0) : Type 0 where
  pub symbols : List Text
  pub rest_url : Text
  pub channel_symbols : Dict Word Text
  pub subscribed_symbols : Dict Text (Unit {0})
  pub last_ids : Dict Text Word
  pub pending_order : Dict Text (List Word)
  pub pending_order_id : Dict Text (Dict Word (Unit {0}))
  pub pending_updates : Dict Text (Dict Word (BitfinexTradeUpdate D))
  pub recovery_gaps : Dict Text Bool

-- `m[symbol]`, empty where it is missing
unfoldable pub at_symbol : {V : Type 0} → Text → Dict Text (List V) → List V
at_symbol symbol m = elim (lookup symbol m) [ none ↦ [] | some values ↦ values ]

-- `APISymbol`
unfoldable pub api_symbol : Text → Text
api_symbol symbol = if has_prefix symbol (bytes "t") then symbol else bytes "t" ++ symbol

any_symbol : Text → List Text → Bool
any_symbol symbol [] = false
any_symbol symbol (requested ∷ symbols) =
    text_eq (api_symbol requested) symbol || any_symbol symbol symbols

-- `m[symbol]` is there behind this
unfoldable pub ensure_entry : {V : Type 0} → Text → Dict Text (List V) → Dict Text (List V)
ensure_entry symbol m = elim (lookup symbol m) [ none ↦ insert symbol [] m | some values ↦ m ]

module _ {D : Type 0} where
  unfoldable pub reset_session_state : Bitfinex D → Bitfinex D
  reset_session_state b = record b {
    channel_symbols = [];
    subscribed_symbols = [];
    pending_order = [];
    pending_order_id = [];
    pending_updates = [];
    recovery_gaps = [];
  }

  unfoldable pub requested_symbol : Bitfinex D → Text → Bool
  unfolding any_symbol
  requested_symbol b symbol = any_symbol symbol b.symbols

  unfoldable pub ensure_bitfinex_trade_state : Bitfinex D → Text → Bitfinex D
  unfolding ensure_entry
  ensure_bitfinex_trade_state b symbol = record b {
    pending_order_id = ensure_entry symbol b.pending_order_id;
    pending_updates = ensure_entry symbol b.pending_updates;
  }

  -- whether the ID is at most the last one of the symbol
  unfoldable pub is_old : Bitfinex D → Text → Word → Bool
  is_old b symbol trade_id = elim (lookup symbol b.last_ids) [
    | none ↦ false
    | some last_id ↦ not (int_lt last_id trade_id)
  ]

  -- whether the trade waits for its update
  unfoldable pub is_announced : Bitfinex D → Text → Word → Bool
  unfolding at_symbol
  is_announced b symbol trade_id = elim (lookup trade_id (at_symbol symbol b.pending_order_id)) [
    | none ↦ false
    | some _ ↦ true
  ]

  unfoldable pub append_announced : Bitfinex D → Text → Word → Bitfinex D
  unfolding at_symbol
  append_announced b symbol trade_id = record b {
    pending_order =
        insert symbol (at_symbol symbol b.pending_order ++ trade_id ∷ []) b.pending_order;
    pending_order_id =
        insert symbol (insert trade_id tt (at_symbol symbol b.pending_order_id)) b.pending_order_id;
  }

  unfoldable pub enqueue_bitfinex_trade : Bitfinex D → Text → Word → Bitfinex D
  unfolding ensure_bitfinex_trade_state is_old is_announced append_announced
  enqueue_bitfinex_trade b symbol trade_id =
      let b' = ensure_bitfinex_trade_state b symbol in
      if is_old b' symbol trade_id
      then b'
      else if is_announced b' symbol trade_id
      then b'
      else append_announced b' symbol trade_id

  unfoldable pub store_bitfinex_trade_update :
      Bitfinex D → Text → BitfinexTradeUpdate D → Bitfinex D
  unfolding ensure_bitfinex_trade_state is_old at_symbol
  store_bitfinex_trade_update b symbol update =
      let b' = ensure_bitfinex_trade_state b symbol in
      if is_old b' symbol update.trade_id then b' else record b' {
        pending_updates =
            insert symbol (insert update.trade_id update (at_symbol symbol b'.pending_updates))
              b'.pending_updates;
      }

  -- `recoveryGaps[symbol]`
  unfoldable pub has_gap : Bitfinex D → Text → Bool
  has_gap b symbol = elim (lookup symbol b.recovery_gaps) [ none ↦ false | some gap ↦ gap ]

  unfoldable pub bitfinex_trade_is_sequential :
      Bitfinex D → Text → Option Word → Word → Bitfinex D × Bool
  unfolding has_gap
  bitfinex_trade_is_sequential b symbol previous trade_id =
      if has_gap b symbol
      then (record b { recovery_gaps = delete symbol b.recovery_gaps }, false)
      else (b, elim previous [ none ↦ false | some previous_id ↦ int_lt previous_id trade_id ])

  unfoldable pub new_bitfinex_trade_event :
      ⦃ops : DecimalOps D⦄ → Text → BitfinexTradeUpdate D → Bool → TradeEvent D
  unfolding new_trade_event
  new_bitfinex_trade_event symbol update is_sequential = new_trade_event (record {
    exchange = bitfinex_name;
    uid = format_int update.trade_id;
    symbol = symbol;
    timestamp = unix_milli update.timestamp_millis;
    received_at = update.received_at;
    price = update.price;
    volume = none;
    notional = update.notional;
    tick_rule = update.tick_rule;
    nanoseconds = 0;
    ticks = 0;
    is_sequential = is_sequential;
  })

  -- the head of the order is taken out of the maps, and becomes the last ID
  unfoldable pub take_announced : Bitfinex D → Text → Word → Bitfinex D
  unfolding at_symbol
  take_announced b symbol trade_id = record b {
    pending_order_id =
        insert symbol (delete trade_id (at_symbol symbol b.pending_order_id)) b.pending_order_id;
    pending_updates =
        insert symbol (delete trade_id (at_symbol symbol b.pending_updates)) b.pending_updates;
    last_ids = insert symbol trade_id b.last_ids;
  }

  -- The loop of `emitReadyBitfinexTrades` over the order: the adapter, the order that is left, and the
  -- trades.
  unfoldable pub emit_ready :
      ⦃ops : DecimalOps D⦄
      → Bitfinex D
      → Text
      → List Word
      → Bitfinex D × List Word × List (TradeEvent D)
  unfolding take_announced bitfinex_trade_is_sequential new_bitfinex_trade_event at_symbol
  emit_ready b symbol [] = (b, [], [])
  emit_ready b symbol (trade_id ∷ order) =
      elim (lookup trade_id (at_symbol symbol b.pending_updates)) [
        | none ↦ (b, trade_id ∷ order, [])
        | some update ↦
            let (b', is_sequential) =
              bitfinex_trade_is_sequential (take_announced b symbol trade_id) symbol
                (lookup symbol b.last_ids) trade_id in
            let (b'', left, trades) = emit_ready b' symbol order in
            (b'', left, new_bitfinex_trade_event symbol update is_sequential ∷ trades)
      ]

  unfoldable pub emit_ready_bitfinex_trades :
      ⦃ops : DecimalOps D⦄ → Bitfinex D → Text → Bitfinex D × List (TradeEvent D)
  emit_ready_bitfinex_trades b symbol =
      let (b', left, trades) =
        emit_ready (ensure_bitfinex_trade_state b symbol) symbol
          (at_symbol symbol b.pending_order) in
      (record b' { pending_order = insert symbol left b'.pending_order }, trades)

-- the two kinds of messages about a trade
pub data Tag : Type 0 where
  te : Tag
  tu : Tag

module _ {D : Type 0} ⦃ops : DecimalOps D⦄ where
  -- the end of `parseArrayMessage`, on a trade whose ID is not zero
  unfoldable pub handle_update :
      Bitfinex D → Text → Tag → BitfinexTradeUpdate D → Bitfinex D × List (TradeEvent D)
  unfolding enqueue_bitfinex_trade store_bitfinex_trade_update emit_ready_bitfinex_trades
  handle_update b symbol te update =
      emit_ready_bitfinex_trades (enqueue_bitfinex_trade b symbol update.trade_id) symbol
  handle_update b symbol tu update =
      emit_ready_bitfinex_trades (store_bitfinex_trade_update b symbol update) symbol
