-- ===== src/Exchanges/Binance/Session.antt =====
-- Trades, run, awaitSubscription and startTradeReader of quanttick/exchanges/binance.go: a session
-- on one connection, and the sessions one after the other.
use go_quant_tick.Common.{
  Bool, true, false, not, Option, none, some, List, [], ◌∷◌, ◌++◌, Text, Word, Dict, leb,
  if◌then◌else◌, Result, ok, err, length,
}
use go_quant_tick.Trade.{DecimalOps}
use go_quant_tick.Exchanges.Protocol.{Json}
use go_quant_tick.Exchanges.Runtime.{
  Channel, Read, frame, failure, Frame, Offer, taken, cancelled, full, Attempt,
}
use go_quant_tick.Exchanges.Binance.Protocol.{
  BinanceJson, parse_binance_subscription_response, parse_trade_message,
}
use go_quant_tick.Exchanges.Binance.Recovery.{BinanceSpotRecoveryTrade, recover_trades}
use go_quant_tick.Exchanges.Binance.{
  Binance, BinanceError, BinanceParsedTrade, emit_each, binance_subscription_buffer_limit,
  server_shutdown, buffer_exceeded, read_failed, dial_failed, acknowledgement_timed_out,
  context_ended,
}

-- What one session reads: whether the connection is made and the subscription sent, the
-- messages, and the answers of the REST interface by symbol.
pub record SessionInput : Type 0 where
  pub connected : Bool
  pub reads : List Read
  pub futures_attempts : Text → List (Attempt (List Text))
  pub spot_attempts : Text → List (Attempt (List BinanceSpotRecoveryTrade))

-- What is done with a message before the acknowledgement, or behind it.
pub data Handled (D : Type 0) : Type 0 where
  failed : BinanceError → Handled D
  acknowledged : Handled D
  skipped : Handled D
  trade : BinanceParsedTrade D → Dict Text Word → Handled D

-- What is read before the acknowledgement.
pub record Subscribed (D : Type 0) : Type 0 where
  pub buffered : List (BinanceParsedTrade D)
  pub sequence_ids : Dict Text Word
  pub unread : List Read

module _ {D : Type 0} where
  unfoldable pub parsed_frame :
      Result BinanceError (Option (BinanceParsedTrade D × Dict Text Word)) → Handled D
  parsed_frame (err e) = failed e
  parsed_frame (ok none) = skipped
  parsed_frame (ok (some (parsed, sequence_ids))) = trade parsed sequence_ids

  -- a message before the acknowledgement; `next` goes on with the messages behind it
  unfoldable pub await_handled :
      (List (BinanceParsedTrade D) → Dict Text Word → Result BinanceError (Subscribed D))
      → List Read
      → List (BinanceParsedTrade D)
      → Dict Text Word
      → Handled D
      → Result BinanceError (Subscribed D)
  await_handled next reads buffered sequence_ids (failed e) = err e
  await_handled next reads buffered sequence_ids acknowledged =
      ok (record { buffered = buffered; sequence_ids = sequence_ids; unread = reads })
  await_handled next reads buffered sequence_ids skipped = next buffered sequence_ids
  await_handled next reads buffered sequence_ids (trade parsed sequence_ids') =
      if leb binance_subscription_buffer_limit (length buffered)
      then err buffer_exceeded
      else next (buffered ++ parsed ∷ []) sequence_ids'

  -- a message of the stream; `next` goes on with the messages behind it
  unfoldable pub read_handled :
      (Dict Text Word → List (BinanceParsedTrade D) × Option BinanceError)
      → Offer
      → Dict Text Word
      → Handled D
      → List (BinanceParsedTrade D) × Option BinanceError
  read_handled next offer sequence_ids (failed e) = ([], some e)
  read_handled next offer sequence_ids acknowledged = next sequence_ids
  read_handled next offer sequence_ids skipped = next sequence_ids
  read_handled next taken sequence_ids (trade parsed sequence_ids') =
      let (rest, error) = next sequence_ids' in (parsed ∷ rest, error)
  read_handled next cancelled sequence_ids (trade parsed sequence_ids') = ([], some context_ended)
  read_handled next full sequence_ids (trade parsed sequence_ids') = ([], some buffer_exceeded)

module _ {D : Type 0} ⦃ops : DecimalOps D⦄ ⦃json : Json⦄ (decode : BinanceJson) where
  -- the steps that both loops make with a message
  unfoldable pub handle_frame : Binance → Frame → Dict Text Word → Handled D
  unfolding parsed_frame parse_binance_subscription_response parse_trade_message
  handle_frame b message sequence_ids =
      if not message.is_data
      then skipped
      else elim (parse_binance_subscription_response message.payload) [
        | err e ↦ failed e
        | ok is_ack ↦
            if is_ack
            then acknowledged
            else parsed_frame
                (parse_trade_message decode b message.payload message.received_at sequence_ids)
      ]

  -- `awaitSubscription`; where the messages end, so has the context
  unfoldable pub await_subscription :
      Binance
      → List Read
      → List (BinanceParsedTrade D)
      → Dict Text Word
      → Result BinanceError (Subscribed D)
  unfolding await_handled
  await_subscription b [] buffered sequence_ids = err context_ended
  await_subscription b (failure ended timed_out normal_close ∷ reads) buffered sequence_ids = err (
      if ended then context_ended else if timed_out then acknowledgement_timed_out else read_failed)
  await_subscription b (frame message ∷ reads) buffered sequence_ids =
      await_handled (await_subscription b reads) reads buffered sequence_ids
        (handle_frame b message sequence_ids)

  -- The goroutine of `startTradeReader`: the trades that go through its buffer, and the error that
  -- ends it, unless the connection was closed normally.
  unfoldable pub start_trade_reader :
      Binance → List Read → Dict Text Word → List (BinanceParsedTrade D) × Option BinanceError
  unfolding read_handled
  start_trade_reader b [] sequence_ids = ([], some context_ended)
  start_trade_reader b (failure ended timed_out normal_close ∷ reads) sequence_ids =
      ([], if ended then some context_ended else if normal_close then none else some read_failed)
  start_trade_reader b (frame message ∷ reads) sequence_ids =
      read_handled (start_trade_reader b reads) message.offer sequence_ids
        (handle_frame b message sequence_ids)

-- What a session leaves: the adapter, its channel, the errors that it reports while it runs, and
-- the error that it ends with, if it does.
pub record SessionEnd (D : Type 0) : Type 0 where
  pub adapter : Binance
  pub channel : Channel D
  pub reported : List BinanceError
  pub error : Option BinanceError

module _ {D : Type 0} where
  -- a session that ends before it has any trade
  unsubscribed : Binance → Channel D → BinanceError → SessionEnd D
  unsubscribed b channel e = record {
    adapter = b;
    channel = channel;
    reported = [];
    error = some e;
  }

  -- the end of a session whose last loop is done
  session_end :
      (Binance × Dict Text Word × Channel D) × Bool
      → List BinanceError
      → Option BinanceError
      → SessionEnd D
  session_end ((b, sequence_ids, channel), delivered) reported error = record {
    adapter = b;
    channel = channel;
    reported = reported;
    error = if delivered then error else some context_ended;
  }

  -- The loops of `run` over the recovered trades, those that were buffered before the
  -- acknowledgement, and those of the stream. The errors of the recovery are reported behind the
  -- first loop.
  unfoldable pub emit_session :
      Binance × Dict Text Word × Channel D
      → List (BinanceParsedTrade D) × List BinanceError
      → List (BinanceParsedTrade D)
      → List (BinanceParsedTrade D) × Option BinanceError
      → SessionEnd D
  unfolding emit_each session_end
  emit_session s (recovered, recovery_errors) buffered (stream, stream_error) =
      let first = emit_each s recovered in
      let second = emit_each first.0 buffered in
      let third = emit_each second.0 stream in
      if not first.1
      then session_end first [] none
      else if not second.1
      then session_end second recovery_errors none
      else session_end third recovery_errors stream_error

-- what the loop of `Trades` does behind a session: whether it goes on, and what it reports
unfoldable pub after_session : Option BinanceError → Bool × List BinanceError
after_session none = (true, [])
after_session (some context_ended) = (false, [])
after_session (some server_shutdown) = (true, [])
after_session (some e) = (true, e ∷ [])

module _ {D : Type 0} ⦃ops : DecimalOps D⦄ ⦃json : Json⦄ (decode : BinanceJson) where
  -- `run`
  unfoldable pub run : Binance × Channel D → SessionInput → SessionEnd D
  unfolding unsubscribed await_subscription start_trade_reader recover_trades emit_session
  run (b, channel) input =
      if not input.connected
      then unsubscribed b channel dial_failed
      else elim (await_subscription decode b input.reads [] b.last_ids) [
        | err e ↦ unsubscribed b channel e
        | ok subscribed ↦
            emit_session (b, subscribed.sequence_ids, channel)
              (recover_trades decode b input.futures_attempts input.spot_attempts)
              subscribed.buffered
              (start_trade_reader decode b subscribed.unread subscribed.sequence_ids)
      ]

  -- `Trades`: the sessions one after the other, with what is reported
  unfoldable pub run_sessions :
      Binance × Channel D → List SessionInput → (Binance × Channel D) × List BinanceError
  unfolding run after_session
  run_sessions s [] = (s, [])
  run_sessions s (input ∷ inputs) =
      let after = run s input in
      let (goes_on, errors) = after_session after.error in
      let later = run_sessions (after.adapter, after.channel) inputs in
      if goes_on
      then (later.0, after.reported ++ (errors ++ later.1))
      else ((after.adapter, after.channel), after.reported)
