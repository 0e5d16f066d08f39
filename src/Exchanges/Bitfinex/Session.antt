-- ===== src/Exchanges/Bitfinex/Session.antt =====
-- Trades and run of quanttick/exchanges/bitfinex.go, and awaitSubscriptions and startMessageReader of
-- quanttick/exchanges/bitfinex_recovery.go: a session on one connection, and the sessions one after
-- the other.
use go_quant_tick.Common.{
  Bool, true, false, not, Option, none, some, List, [], ◌∷◌, ◌++◌, Text, text_Eq, Dict, lookup, leb,
  nat_eq, trim_space, if◌then◌else◌, Result, ok, err, length,
}
use go_quant_tick.Trade.{TradeEvent, DecimalOps}
use go_quant_tick.Exchanges.Protocol.{Json}
use go_quant_tick.Exchanges.Runtime.{
  Channel, Read, frame, failure, Frame, taken, cancelled, full, Attempt,
}
use go_quant_tick.Exchanges.Bitfinex.{
  Bitfinex, BitfinexError, api_symbol, reset_session_state, bitfinex_subscription_buffer_limit,
  lifecycle, buffer_exceeded, dial_failed, read_failed, acknowledgement_timed_out, context_ended,
}
use go_quant_tick.Exchanges.Bitfinex.Messages.{
  BitfinexJson, WebSocketMessage, parse_bitfinex_message, emit_messages,
}
use go_quant_tick.Exchanges.Bitfinex.Recovery.{emit_recovered_trade, recover_bitfinex_trades}

-- What one session reads: whether the connection is made and the subscriptions sent, the messages,
-- and the answers of the REST interface by symbol.
pub record BitfinexInput : Type 0 where
  pub connected : Bool
  pub reads : List Read
  pub attempts : Text → List (Attempt (List Text))

-- What is read before all symbols are subscribed.
pub record Subscribed (D : Type 0) : Type 0 where
  pub adapter : Bitfinex D
  pub buffered : List WebSocketMessage
  pub unread : List Read

all_subscribed : Dict Text (Unit {0}) → List Text → Bool
all_subscribed subscribed [] = true
all_subscribed subscribed (requested ∷ symbols) = elim (lookup (api_symbol requested) subscribed) [
  | none ↦ false
  | some entry ↦ all_subscribed subscribed symbols
]

-- `subscriptionsReady`
unfoldable pub subscriptions_ready : {D : Type 0} → Bitfinex D → Bool
unfolding all_subscribed
subscriptions_ready b = all_subscribed b.subscribed_symbols b.symbols

-- whether a message is an object
is_event : Text → Bool
is_event payload = elim (trim_space payload) [ [] ↦ false | c ∷ s ↦ nat_eq c b'{' ]

message_of : Frame → WebSocketMessage
message_of message = record { payload = message.payload; received_at = message.received_at }

module _ {D : Type 0} ⦃ops : DecimalOps D⦄ ⦃json : Json⦄ (decode : BitfinexJson) where
  -- a message before all symbols are subscribed; `next` goes on with the messages behind it
  unfoldable pub await_bitfinex_message :
      (Bitfinex D → List WebSocketMessage → Result BitfinexError (Subscribed D))
      → Bitfinex D
      → List WebSocketMessage
      → Frame
      → Result BitfinexError (Subscribed D)
  unfolding is_event message_of parse_bitfinex_message
  await_bitfinex_message next b buffered message =
      if not message.is_data
      then next b buffered
      else if is_event message.payload
      then elim (parse_bitfinex_message decode b message.payload message.received_at) [
        | err e ↦ err e
        | ok (b', events) ↦ next b' buffered
      ]
      else if leb bitfinex_subscription_buffer_limit (length buffered)
      then err buffer_exceeded
      else next b (buffered ++ message_of message ∷ [])

  -- `awaitSubscriptions`
  unfoldable pub await_subscriptions :
      List Read → Bitfinex D → List WebSocketMessage → Result BitfinexError (Subscribed D)
  unfolding subscriptions_ready await_bitfinex_message
  await_subscriptions [] b buffered =
      if subscriptions_ready b
      then ok (record { adapter = b; buffered = buffered; unread = [] })
      else err context_ended
  await_subscriptions (failure ended timed_out normal_close ∷ reads) b buffered =
      if subscriptions_ready b
      then ok (record {
        adapter = b;
        buffered = buffered;
        unread = failure ended timed_out normal_close ∷ reads;
      })
      else err (
          if ended
          then context_ended
          else if timed_out
          then acknowledgement_timed_out
          else read_failed)
  await_subscriptions (frame message ∷ reads) b buffered =
      let later = await_bitfinex_message (await_subscriptions reads) b buffered message in
      if subscriptions_ready b
      then ok (record { adapter = b; buffered = buffered; unread = frame message ∷ reads })
      else later

-- a message of the stream, and what becomes of it at the buffer
unfoldable pub read_bitfinex_message :
    List WebSocketMessage × Option BitfinexError
    → Frame
    → List WebSocketMessage × Option BitfinexError
unfolding message_of
read_bitfinex_message (rest, error) message =
    if not message.is_data then (rest, error) else elim message.offer [
      | taken ↦ (message_of message ∷ rest, error)
      | cancelled ↦ ([], some context_ended)
      | full ↦ ([], some buffer_exceeded)
    ]

-- The goroutine of `startMessageReader`: the messages that go through its buffer, and the error that
-- ends it, unless the connection was closed normally.
unfoldable pub start_message_reader : List Read → List WebSocketMessage × Option BitfinexError
unfolding read_bitfinex_message
start_message_reader [] = ([], some context_ended)
start_message_reader (failure ended timed_out normal_close ∷ reads) =
    ([], if ended then some context_ended else if normal_close then none else some read_failed)
start_message_reader (frame message ∷ reads) =
    read_bitfinex_message (start_message_reader reads) message

-- What a session leaves: the adapter and its channel, the errors that it reports while it runs, and
-- the error that it ends with, if it does.
pub record BitfinexEnd (D : Type 0) : Type 0 where
  pub state : Bitfinex D × Channel D
  pub reported : List BitfinexError
  pub error : Option BitfinexError

module _ {D : Type 0} where
  -- the loop of `run` over the recovered trades, which returns at the first error
  unfoldable pub emit_recovered_trades :
      Bitfinex D × Channel D → List (TradeEvent D) → (Bitfinex D × Channel D) × Option BitfinexError
  unfolding emit_recovered_trade
  emit_recovered_trades s [] = (s, none)
  emit_recovered_trades s (trade ∷ trades) =
      let (s', error) = emit_recovered_trade s trade in
      let rest = emit_recovered_trades s' trades in
      elim error [ none ↦ rest | some e ↦ (s', some e) ]

  module _ ⦃ops : DecimalOps D⦄ ⦃json : Json⦄ (decode : BitfinexJson) where
    -- The loops of `run` over the recovered trades, the messages that were buffered before all
    -- symbols were subscribed, and those of the stream. The errors of the recovery are reported
    -- behind the first loop.
    unfoldable pub emit_bitfinex_session :
        Bitfinex D × Channel D
        → List (TradeEvent D) × List BitfinexError
        → List WebSocketMessage
        → List WebSocketMessage × Option BitfinexError
        → BitfinexEnd D
    unfolding emit_recovered_trades emit_messages
    emit_bitfinex_session s (recovered, errors) buffered (stream, stream_error) =
        let (s1, first) = emit_recovered_trades s recovered in
        let (s2, second) = emit_messages decode s1 buffered in
        let (s3, third) = emit_messages decode s2 stream in
        elim first [
          | some e ↦ record { state = s1; reported = []; error = some e }
          | none ↦ elim second [
            | some e ↦ record { state = s2; reported = errors; error = some e }
            | none ↦ record {
              state = s3;
              reported = errors;
              error = elim third [ some e ↦ some e | none ↦ stream_error ];
            }
          ]
        ]

-- what the loop of `Trades` does behind a session: whether it goes on, and what it reports
unfoldable pub after_bitfinex_session : Option BitfinexError → Bool × List BitfinexError
after_bitfinex_session none = (true, [])
after_bitfinex_session (some context_ended) = (false, [])
after_bitfinex_session (some (lifecycle code message)) = (true, [])
after_bitfinex_session (some e) = (true, e ∷ [])

module _ {D : Type 0} ⦃ops : DecimalOps D⦄ ⦃json : Json⦄ (decode : BitfinexJson) where
  -- `run` behind the reset of the state of a session
  run_reset : Bitfinex D × Channel D → BitfinexInput → BitfinexEnd D
  unfolding await_subscriptions start_message_reader recover_bitfinex_trades emit_bitfinex_session
  run_reset (b, channel) input =
      if not input.connected
      then record { state = (b, channel); reported = []; error = some dial_failed }
      else elim (await_subscriptions decode input.reads b []) [
        | err e ↦ record { state = (b, channel); reported = []; error = some e }
        | ok subscribed ↦
            let (b', recovered, errors) =
              recover_bitfinex_trades subscribed.adapter input.attempts in
            emit_bitfinex_session decode (b', channel) (recovered, errors) subscribed.buffered
              (start_message_reader subscribed.unread)
      ]

  -- `run`. The backlog has room for what was buffered, whose number is limited. Where the
  -- subscriptions fail, what they changed belongs to the session and is reset by the next one.
  unfoldable pub run_bitfinex : Bitfinex D × Channel D → BitfinexInput → BitfinexEnd D
  unfolding run_reset reset_session_state
  run_bitfinex (b, channel) = run_reset (reset_session_state b, channel)

  -- `Trades`: the sessions one after the other, with what is reported
  unfoldable pub run_bitfinex_sessions :
      Bitfinex D × Channel D → List BitfinexInput → (Bitfinex D × Channel D) × List BitfinexError
  unfolding run_bitfinex after_bitfinex_session
  run_bitfinex_sessions s [] = (s, [])
  run_bitfinex_sessions s (input ∷ inputs) =
      let end = run_bitfinex s input in
      let (goes_on, errors) = after_bitfinex_session end.error in
      let later = run_bitfinex_sessions end.state inputs in
      if goes_on then (later.0, end.reported ++ (errors ++ later.1)) else (end.state, end.reported)
