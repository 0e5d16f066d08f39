-- ===== src/Exchanges/Coinbase/Session.antt =====
-- Trades, run, awaitSubscription and startTradeReader of quanttick/exchanges/coinbase.go: a session on
-- one connection, and the sessions one after the other.
use go_quant_tick.Common.{
  Bool, true, false, not, Option, none, some, List, [], ◌∷◌, ◌++◌, Text, leb, if◌then◌else◌, Result,
  ok, err, length,
}
use go_quant_tick.Trade.{DecimalOps}
use go_quant_tick.Exchanges.Runtime.{
  Channel, Read, frame, failure, Frame, Offer, taken, cancelled, full, Attempt,
}
use go_quant_tick.Exchanges.Coinbase.Recovery.{recover_coinbase_trades}
use go_quant_tick.Exchanges.Coinbase.{
  Coinbase, CoinbaseError, CoinbaseFormats, CoinbaseMatchMessage, CoinbaseParsedTrade,
  parse_control_message, parse_coinbase_trade_message, emit_coinbase_trade,
  coinbase_subscription_buffer_limit, buffer_exceeded, dial_failed, read_failed,
  acknowledgement_timed_out, context_ended,
}

-- What one session reads: whether the connection is made and the subscription sent, the messages,
-- and the answers of the REST interface by symbol.
pub record CoinbaseInput : Type 0 where
  pub connected : Bool
  pub reads : List Read
  pub attempts : Text → List (Attempt (List CoinbaseMatchMessage))

-- What a message is.
pub data Message (D : Type 0) : Type 0 where
  control : Coinbase → Message D
  match : CoinbaseParsedTrade D → Message D
  other : Message D

-- What is read before the acknowledgement.
pub record Subscribed (D : Type 0) : Type 0 where
  pub adapter : Coinbase
  pub buffered : List (CoinbaseParsedTrade D)
  pub unread : List Read

module _ {D : Type 0} where
  -- a message before the acknowledgement; `next` goes on with the messages behind it
  unfoldable pub await_coinbase_message :
      (Coinbase → List (CoinbaseParsedTrade D) → Result CoinbaseError (Subscribed D))
      → List Read
      → Coinbase
      → List (CoinbaseParsedTrade D)
      → Result CoinbaseError (Message D)
      → Result CoinbaseError (Subscribed D)
  await_coinbase_message next reads c buffered (err e) = err e
  await_coinbase_message next reads c buffered (ok (control c')) =
      if c'.subscribed
      then ok (record { adapter = c'; buffered = buffered; unread = reads })
      else next c' buffered
  await_coinbase_message next reads c buffered (ok other) = next c buffered
  await_coinbase_message next reads c buffered (ok (match parsed)) =
      if leb coinbase_subscription_buffer_limit (length buffered)
      then err buffer_exceeded
      else next c (buffered ++ parsed ∷ [])

  -- a message of the stream, and what becomes of its trade at the buffer
  unfoldable pub read_coinbase_message :
      List (CoinbaseParsedTrade D) × Option CoinbaseError
      → Offer
      → Result CoinbaseError (Message D)
      → List (CoinbaseParsedTrade D) × Option CoinbaseError
  read_coinbase_message rest offer (err e) = ([], some e)
  read_coinbase_message rest offer (ok (control c)) = rest
  read_coinbase_message rest offer (ok other) = rest
  read_coinbase_message (rest, error) taken (ok (match parsed)) = (parsed ∷ rest, error)
  read_coinbase_message rest cancelled (ok (match parsed)) = ([], some context_ended)
  read_coinbase_message rest full (ok (match parsed)) = ([], some buffer_exceeded)

module _ {D : Type 0} ⦃ops : DecimalOps D⦄ (formats : CoinbaseFormats) where
  -- a message that is not handled as a control message
  match_message : Frame → Result CoinbaseError (Message D)
  unfolding parse_coinbase_trade_message
  match_message message =
      elim (parse_coinbase_trade_message formats message.payload message.received_at) [
        | err e ↦ err e
        | ok none ↦ ok other
        | ok (some parsed) ↦ ok (match parsed)
      ]

  -- the steps that both loops make with a message
  unfoldable pub coinbase_message : Coinbase → Frame → Result CoinbaseError (Message D)
  unfolding parse_control_message match_message
  coinbase_message c message =
      if not message.is_data
      then ok other
      else elim (parse_control_message formats c message.payload) [
        | err e ↦ err e
        | ok (c', handled) ↦ if handled then ok (control c') else match_message message
      ]

  -- `awaitSubscription`
  unfoldable pub await_coinbase_subscription :
      List Read → Coinbase → List (CoinbaseParsedTrade D) → Result CoinbaseError (Subscribed D)
  unfolding await_coinbase_message
  await_coinbase_subscription [] c buffered = err context_ended
  await_coinbase_subscription (failure ended timed_out normal_close ∷ reads) c buffered = err (
      if ended then context_ended else if timed_out then acknowledgement_timed_out else read_failed)
  await_coinbase_subscription (frame message ∷ reads) c buffered =
      await_coinbase_message (await_coinbase_subscription reads) reads c buffered
        (coinbase_message c message)

  -- The goroutine of `startTradeReader`: the trades that go through its buffer, and the error that
  -- ends it, unless the connection was closed normally. An acknowledgement in the stream sets what
  -- is set already.
  unfoldable pub start_coinbase_reader :
      Coinbase → List Read → List (CoinbaseParsedTrade D) × Option CoinbaseError
  unfolding read_coinbase_message
  start_coinbase_reader c [] = ([], some context_ended)
  start_coinbase_reader c (failure ended timed_out normal_close ∷ reads) =
      ([], if ended then some context_ended else if normal_close then none else some read_failed)
  start_coinbase_reader c (frame message ∷ reads) =
      read_coinbase_message (start_coinbase_reader c reads) message.offer
        (coinbase_message c message)

-- What a session leaves: the adapter and its channel, the errors that it reports while it runs, and
-- the error that it ends with, if it does.
pub record CoinbaseEnd (D : Type 0) : Type 0 where
  pub state : Coinbase × Channel D
  pub reported : List CoinbaseError
  pub error : Option CoinbaseError

module _ {D : Type 0} where
  -- the loops of `run`, which return at the first trade that is not delivered
  unfoldable pub emit_coinbase_trades :
      Coinbase × Channel D → List (CoinbaseParsedTrade D) → (Coinbase × Channel D) × Bool
  unfolding emit_coinbase_trade
  emit_coinbase_trades s [] = (s, true)
  emit_coinbase_trades s (parsed ∷ trades) =
      let (s', delivered) = emit_coinbase_trade s parsed in
      let after = emit_coinbase_trades s' trades in if delivered then after else (s', false)

  -- The loops of `run` over the recovered trades, those that were buffered before the
  -- acknowledgement, and those of the stream. The errors of the recovery are reported behind the
  -- first loop.
  unfoldable pub emit_coinbase_session :
      Coinbase × Channel D
      → List (CoinbaseParsedTrade D) × List CoinbaseError
      → List (CoinbaseParsedTrade D)
      → List (CoinbaseParsedTrade D) × Option CoinbaseError
      → CoinbaseEnd D
  unfolding emit_coinbase_trades
  emit_coinbase_session s (recovered, errors) buffered (stream, stream_error) =
      let (s1, first) = emit_coinbase_trades s recovered in
      let (s2, second) = emit_coinbase_trades s1 buffered in
      let (s3, third) = emit_coinbase_trades s2 stream in
      if not first
      then record { state = s1; reported = []; error = some context_ended }
      else if not second
      then record { state = s2; reported = errors; error = some context_ended }
      else record {
        state = s3;
        reported = errors;
        error = if third then stream_error else some context_ended;
      }

-- what the loop of `Trades` does behind a session: whether it goes on, and what it reports
unfoldable pub after_coinbase_session : Option CoinbaseError → Bool × List CoinbaseError
after_coinbase_session none = (true, [])
after_coinbase_session (some context_ended) = (false, [])
after_coinbase_session (some e) = (true, e ∷ [])

module _ {D : Type 0} ⦃ops : DecimalOps D⦄ (formats : CoinbaseFormats) where
  -- `run` behind the reset of `subscribed`
  run_unsubscribed : Coinbase × Channel D → CoinbaseInput → CoinbaseEnd D
  unfolding await_coinbase_subscription start_coinbase_reader recover_coinbase_trades
      emit_coinbase_session
  run_unsubscribed (c, channel) input =
      if not input.connected
      then record { state = (c, channel); reported = []; error = some dial_failed }
      else elim (await_coinbase_subscription {D = D} formats input.reads c []) [
        | err e ↦ record { state = (c, channel); reported = []; error = some e }
        | ok subscribed ↦
            emit_coinbase_session (subscribed.adapter, channel)
              (recover_coinbase_trades formats subscribed.adapter input.attempts)
              subscribed.buffered
              (start_coinbase_reader formats subscribed.adapter subscribed.unread)
      ]

  -- `run`. The backlog has room for what was buffered, whose number is limited.
  unfoldable pub run_coinbase : Coinbase × Channel D → CoinbaseInput → CoinbaseEnd D
  unfolding run_unsubscribed
  run_coinbase (c, channel) = run_unsubscribed (record c { subscribed = false }, channel)

  -- `Trades`: the sessions one after the other, with what is reported
  unfoldable pub run_coinbase_sessions :
      Coinbase × Channel D → List CoinbaseInput → (Coinbase × Channel D) × List CoinbaseError
  unfolding run_coinbase after_coinbase_session
  run_coinbase_sessions s [] = (s, [])
  run_coinbase_sessions s (input ∷ inputs) =
      let end = run_coinbase s input in
      let (goes_on, errors) = after_coinbase_session end.error in
      let later = run_coinbase_sessions end.state inputs in
      if goes_on then (later.0, end.reported ++ (errors ++ later.1)) else (end.state, end.reported)
