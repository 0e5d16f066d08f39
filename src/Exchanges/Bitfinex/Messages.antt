-- ===== src/Exchanges/Bitfinex/Messages.antt =====
-- ParseTradeMessage of quanttick/exchanges/bitfinex.go, and the loops over messages of
-- quanttick/exchanges/bitfinex_recovery.go.
use go_quant_tick.Common.{
  Bool, true, false, ◌&&◌, ◌||◌, not, Option, none, some, List, [], ◌∷◌, Text, Word, text_Eq,
  nat_Eq, lookup, insert, bytes, nat_eq, text_eq, trim_space, if◌then◌else◌, Result, ok, err, ◌>>=◌,
  minus_one,
}
use go_quant_tick.Trade.{Time, DecimalOps, TradeEvent}
use go_quant_tick.Exchanges.Protocol.{Json, parse_raw_decimal, parse_raw_int64}
use go_quant_tick.Exchanges.Runtime.{Channel, send_trade}
use go_quant_tick.Exchanges.Bitfinex.{
  Bitfinex, BitfinexError, BitfinexTradeUpdate, Tag, te, tu, requested_symbol, handle_update,
  parse_event, unexpected_channel, unexpected_symbol, parse_channel_id, changed_symbol,
  protocol_error, lifecycle, platform_unavailable, info_error, unsubscribed, parse_array, parse_tag,
  parse_trade, parse_trade_id, parse_timestamp, parse_notional, parse_price, context_ended,
}

-- `bitfinexEventMessage`; the status of the platform, if it is given
pub record BitfinexEventMessage : Type 0 where
  pub event : Text
  pub channel : Text
  pub channel_id : Text
  pub symbol : Text
  pub code : Word
  pub message : Text
  pub platform : Option Word

-- `json.Unmarshal` into the struct of the package.
pub record BitfinexJson : Type 0 where
  pub event_message : Text → Option BitfinexEventMessage

-- `value, err := f(…)` behind which an error is returned
needed {ℓ} : {A : Type ℓ} → BitfinexError → Option A → Result BitfinexError A
needed e none = err e
needed e (some a) = ok a

module _ {D : Type 0} where
  -- the symbol of a channel, empty where it has none
  unfoldable pub channel_symbol : Bitfinex D → Word → Text
  channel_symbol b channel_id = elim (lookup channel_id b.channel_symbols) [
    | none ↦ []
    | some symbol ↦ symbol
  ]

  accept_channel : Bitfinex D → Text → Word → Result BitfinexError (Bitfinex D)
  unfolding channel_symbol
  accept_channel b symbol channel_id =
      let existing = channel_symbol b channel_id in
      if not (text_eq existing []) && not (text_eq existing symbol)
      then err (changed_symbol channel_id existing symbol)
      else ok (record b {
        channel_symbols = insert channel_id symbol b.channel_symbols;
        subscribed_symbols = insert symbol tt b.subscribed_symbols;
      })

  -- the event "subscribed"
  unfoldable pub accept_subscribed :
      ⦃json : Json⦄ → Bitfinex D → BitfinexEventMessage → Result BitfinexError (Bitfinex D)
  unfolding accept_channel needed
  accept_subscribed b msg =
      if not (text_eq msg.channel (bytes "trades"))
      then err (unexpected_channel msg.channel)
      else if not (requested_symbol b msg.symbol)
      then err (unexpected_symbol msg.symbol)
      else (needed parse_channel_id (parse_raw_int64 msg.channel_id)
          >>= accept_channel b msg.symbol)

check_platform : Option Word → Result BitfinexError (Unit {0})
check_platform none = ok tt
check_platform (some status) =
    if nat_eq status 1
    then ok tt
    else if nat_eq status 0
    then err (lifecycle 20060 (bytes "platform maintenance"))
    else err (platform_unavailable status)

check_code : Word → Text → Result BitfinexError (Unit {0})
check_code code message =
    if nat_eq code 0
    then ok tt
    else if nat_eq code 20051 || nat_eq code 20060 || nat_eq code 20061
    then err (lifecycle code message)
    else err (info_error code message)

module _ {D : Type 0} where
  -- the event "info"
  accept_info : Bitfinex D → BitfinexEventMessage → Result BitfinexError (Bitfinex D)
  unfolding check_platform check_code
  accept_info b msg =
      check_platform msg.platform >>= λ _. check_code msg.code msg.message >>= λ _. ok b

  dispatch_event :
      ⦃json : Json⦄ → Bitfinex D → BitfinexEventMessage → Result BitfinexError (Bitfinex D)
  unfolding accept_subscribed accept_info
  dispatch_event b msg =
      if text_eq msg.event (bytes "subscribed")
      then accept_subscribed b msg
      else if text_eq msg.event (bytes "error")
      then err (protocol_error msg.code msg.message)
      else if text_eq msg.event (bytes "info")
      then accept_info b msg
      else if text_eq msg.event (bytes "unsubscribed")
      then err unsubscribed
      else ok b

  unfoldable pub parse_event_message :
      ⦃json : Json⦄ → BitfinexJson → Bitfinex D → Text → Result BitfinexError (Bitfinex D)
  unfolding needed dispatch_event
  parse_event_message decode b data' =
      needed parse_event (decode.event_message data') >>= dispatch_event b

-- `parseBitfinexTag`
unfoldable pub parse_bitfinex_tag : ⦃json : Json⦄ → Text → Result BitfinexError (Option Text)
parse_bitfinex_tag ⦃json⦄ raw = elim (trim_space raw) [
  | [] ↦ ok none
  | c ∷ s ↦
      if nat_eq c b'['
      then ok none
      else elim (json.text (c ∷ s)) [ none ↦ err parse_tag | some tag ↦ ok (some tag) ]
]

-- "te" and "tu"
trade_tag : Option Text → Option Tag
trade_tag none = none
trade_tag (some tag) =
    if text_eq tag (bytes "te") then some te else if text_eq tag (bytes "tu") then some tu else none

module _ {D : Type 0} ⦃ops : DecimalOps D⦄ where
  -- the side and the size of a trade whose notional is signed
  signed_update : Word → Word → D → D → Time → BitfinexTradeUpdate D
  signed_update trade_id timestamp_millis notional price received_at = record {
    trade_id = trade_id;
    timestamp_millis = timestamp_millis;
    notional = if ops.is_negative notional then ops.abs notional else notional;
    price = price;
    tick_rule = if ops.is_negative notional then minus_one else 1;
    received_at = received_at;
  }

  module _ ⦃json : Json⦄ where
    update_fields : List Text → Time → Result BitfinexError (Option (BitfinexTradeUpdate D))
    unfolding needed signed_update
    update_fields (id ∷ timestamp ∷ notional ∷ price ∷ rest) received_at = do
      trade_id ← needed parse_trade_id (parse_raw_int64 id)
      timestamp_millis ← needed parse_timestamp (parse_raw_int64 timestamp)
      signed ← needed parse_notional (parse_raw_decimal notional)
      at ← needed parse_price (parse_raw_decimal price)
      ok (some (signed_update trade_id timestamp_millis signed at received_at))
    update_fields fields received_at = ok none

    -- `parseBitfinexTradeUpdate`; `none` is the empty update of a message with too few fields
    unfoldable pub parse_bitfinex_trade_update :
        Text → Time → Result BitfinexError (Option (BitfinexTradeUpdate D))
    unfolding needed update_fields
    parse_bitfinex_trade_update raw received_at =
        needed parse_trade (json.array raw) >>= λ fields. update_fields fields received_at

    apply_update :
        Bitfinex D → Text → Tag → Option (BitfinexTradeUpdate D) → Bitfinex D × List (TradeEvent D)
    unfolding handle_update
    apply_update b symbol tag none = (b, [])
    apply_update b symbol tag (some update) =
        if nat_eq update.trade_id 0 then (b, []) else handle_update b symbol tag update

    -- the message of a channel with a symbol, behind its ID
    apply_tagged :
        Bitfinex D
        → Text
        → Option Tag
        → List Text
        → Time
        → Result BitfinexError (Bitfinex D × List (TradeEvent D))
    unfolding parse_bitfinex_trade_update apply_update
    apply_tagged b symbol none fields received_at = ok (b, [])
    apply_tagged b symbol (some tag) [] received_at = ok (b, [])
    apply_tagged b symbol (some tag) (raw ∷ fields) received_at =
        parse_bitfinex_trade_update raw received_at >>= λ update.
        ok (apply_update b symbol tag update)

    array_fields :
        Bitfinex D → List Text → Time → Result BitfinexError (Bitfinex D × List (TradeEvent D))
    unfolding needed channel_symbol parse_bitfinex_tag trade_tag apply_tagged
    array_fields b (raw_id ∷ raw_tag ∷ fields) received_at = do
      channel_id ← needed parse_channel_id (parse_raw_int64 raw_id)
      let symbol = channel_symbol b channel_id
      elim (text_eq symbol []) [
        | true ↦ ok (b, [])
        | false ↦ parse_bitfinex_tag raw_tag >>= λ tag.
            apply_tagged b symbol (trade_tag tag) fields received_at
      ]
    array_fields b fields received_at = ok (b, [])

    unfoldable pub parse_array_message :
        Bitfinex D → Text → Time → Result BitfinexError (Bitfinex D × List (TradeEvent D))
    unfolding needed array_fields
    parse_array_message b data' received_at =
        needed parse_array (json.array data') >>= λ fields. array_fields b fields received_at

    -- `ParseTradeMessage`
    unfoldable pub parse_bitfinex_message :
        BitfinexJson
        → Bitfinex D
        → Text
        → Time
        → Result BitfinexError (Bitfinex D × List (TradeEvent D))
    unfolding parse_event_message parse_array_message
    parse_bitfinex_message decode b data' received_at = elim (trim_space data') [
      | [] ↦ ok (b, [])
      | c ∷ s ↦
          if nat_eq c b'{'
          then (parse_event_message decode b (c ∷ s) >>= λ b'. ok (b', []))
          else if nat_eq c b'['
          then parse_array_message b (c ∷ s) received_at
          else ok (b, [])
    ]

-- `bitfinexWebSocketMessage`
pub record WebSocketMessage : Type 0 where
  pub payload : Text
  pub received_at : Time

module _ {D : Type 0} where
  -- the trades of a message go into the channel, until the context ends
  unfoldable pub send_trades : Channel D → List (TradeEvent D) → Channel D × Bool
  unfolding send_trade
  send_trades channel [] = (channel, true)
  send_trades channel (event ∷ events) =
      let (channel', delivered) = send_trade channel event in
      let rest = send_trades channel' events in if delivered then rest else (channel', false)

  module _ ⦃ops : DecimalOps D⦄ ⦃json : Json⦄ (decode : BitfinexJson) where
    sent : Bitfinex D → Channel D × Bool → (Bitfinex D × Channel D) × Option BitfinexError
    sent b (channel, delivered) = ((b, channel), if delivered then none else some context_ended)

    -- `emitMessageTrades`, with the error that it returns
    unfoldable pub emit_message_trades :
        Bitfinex D × Channel D → WebSocketMessage → (Bitfinex D × Channel D) × Option BitfinexError
    unfolding parse_bitfinex_message send_trades sent
    emit_message_trades (b, channel) message =
        elim (parse_bitfinex_message decode b message.payload message.received_at) [
          | err e ↦ ((b, channel), some e)
          | ok (b', events) ↦ sent b' (send_trades channel events)
        ]

    -- the loops of `run` over the messages, which return at the first error
    unfoldable pub emit_messages :
        Bitfinex D × Channel D
        → List WebSocketMessage
        → (Bitfinex D × Channel D) × Option BitfinexError
    unfolding emit_message_trades
    emit_messages s [] = (s, none)
    emit_messages s (message ∷ messages) =
        let (s', error) = emit_message_trades s message in
        let rest = emit_messages s' messages in elim error [ none ↦ rest | some e ↦ (s', some e) ]
