-- ===== src/Exchanges/Deribit/Session.antt =====
-- Trades, run, awaitSubscription and startTradeReader of quanttick/exchanges/deribit.go: a session on
-- one connection, and the sessions one after the other.
use go_quant_tick.Common.{
  ℕ, suc, ◌+◌, Bool, true, false, not, Option, none, some, List, [], ◌∷◌, ◌++◌, Text, ltb,
  if◌then◌else◌, Result, ok, err, length,
}
use go_quant_tick.Trade.{DecimalOps}
use go_quant_tick.Exchanges.Protocol.{Json}
use go_quant_tick.Exchanges.Runtime.{
  Channel, Read, frame, failure, Frame, Offer, taken, cancelled, full, Attempt,
}
use go_quant_tick.Exchanges.Deribit.Recovery.{DeribitRecoveryEnvelope, recover_deribit_trades}
use go_quant_tick.Exchanges.Deribit.{
  Deribit, DeribitError, DeribitFormats, DeribitParsedTrade, emit_deribit_trades,
  deribit_subscription_buffer_limit, buffer_exceeded, dial_failed, read_failed,
  acknowledgement_timed_out, context_ended,
}
use go_quant_tick.Exchanges.Deribit.Protocol.{parse_deribit_response, parse_deribit_message}

-- What one session reads: whether the connection is made and the subscription sent, the messages,
-- what becomes of the n-th trade that the reader offers to its buffer, and the answers of the REST
-- interface by symbol.
pub record DeribitInput : Type 0 where
  pub connected : Bool
  pub reads : List Read
  pub offers : ℕ → Offer
  pub attempts : Text → List (Attempt DeribitRecoveryEnvelope)

-- What a message is: the acknowledgement, or trades, none where it is about something else.
pub data Message (D : Type 0) : Type 0 where
  acknowledgement : Message D
  trades : List (DeribitParsedTrade D) → Message D

module _ {D : Type 0} where
  -- a trade at the buffer, in front of what comes behind it
  unfoldable pub offer_trade :
      DeribitParsedTrade D
      → List (DeribitParsedTrade D) × Option DeribitError
      → Offer
      → List (DeribitParsedTrade D) × Option DeribitError
  offer_trade parsed (rest, error) taken = (parsed ∷ rest, error)
  offer_trade parsed rest cancelled = ([], some context_ended)
  offer_trade parsed rest full = ([], some buffer_exceeded)

  -- The trades of a message go to the buffer, the first one as the n-th of the stream; `next` goes on
  -- with the messages behind it.
  unfoldable pub offer_trades :
      (ℕ → List (DeribitParsedTrade D) × Option DeribitError)
      → (ℕ → Offer)
      → ℕ
      → List (DeribitParsedTrade D)
      → List (DeribitParsedTrade D) × Option DeribitError
  unfolding offer_trade
  offer_trades next offers n [] = next n
  offer_trades next offers n (parsed ∷ rest) =
      offer_trade parsed (offer_trades next offers (suc n) rest) (offers n)

  -- a message before the acknowledgement; `next` goes on with the messages behind it
  unfoldable pub await_deribit_message :
      (List (DeribitParsedTrade D) → Result DeribitError (List (DeribitParsedTrade D) × List Read))
      → List Read
      → List (DeribitParsedTrade D)
      → Result DeribitError (Message D)
      → Result DeribitError (List (DeribitParsedTrade D) × List Read)
  await_deribit_message next reads buffered (err e) = err e
  await_deribit_message next reads buffered (ok acknowledgement) = ok (buffered, reads)
  await_deribit_message next reads buffered (ok (trades parsed)) =
      if ltb deribit_subscription_buffer_limit (length buffered + length parsed)
      then err buffer_exceeded
      else next (buffered ++ parsed)

  unfoldable pub trades_message :
      Result DeribitError (List (DeribitParsedTrade D)) → Result DeribitError (Message D)
  trades_message (err e) = err e
  trades_message (ok parsed) = ok (trades parsed)

  -- a message of the stream
  unfoldable pub read_deribit_message :
      (ℕ → List (DeribitParsedTrade D) × Option DeribitError)
      → (ℕ → Offer)
      → ℕ
      → Result DeribitError (Message D)
      → List (DeribitParsedTrade D) × Option DeribitError
  unfolding offer_trades
  read_deribit_message next offers n (err e) = ([], some e)
  read_deribit_message next offers n (ok acknowledgement) = next n
  read_deribit_message next offers n (ok (trades parsed)) = offer_trades next offers n parsed

module _ {D : Type 0} ⦃ops : DecimalOps D⦄ ⦃json : Json⦄ (formats : DeribitFormats)
    (d : Deribit) where
  -- the steps that both loops make with a message
  unfoldable pub deribit_message : Frame → Result DeribitError (Message D)
  unfolding parse_deribit_response parse_deribit_message trades_message
  deribit_message message =
      if not message.is_data
      then ok (trades [])
      else elim (parse_deribit_response formats d message.payload) [
        | err e ↦ err e
        | ok is_ack ↦
            if is_ack
            then ok acknowledgement
            else trades_message
                (parse_deribit_message formats d message.payload message.received_at)
      ]

  -- `awaitSubscription`: the trades before the acknowledgement, and what is not read yet
  unfoldable pub await_deribit_subscription :
      List Read
      → List (DeribitParsedTrade D)
      → Result DeribitError (List (DeribitParsedTrade D) × List Read)
  unfolding await_deribit_message
  await_deribit_subscription [] buffered = err context_ended
  await_deribit_subscription (failure ended timed_out normal_close ∷ reads) buffered = err (
      if ended then context_ended else if timed_out then acknowledgement_timed_out else read_failed)
  await_deribit_subscription (frame message ∷ reads) buffered =
      await_deribit_message (await_deribit_subscription reads) reads buffered
        (deribit_message message)

  -- The goroutine of `startTradeReader`, behind n trades: those that go through its buffer, and the
  -- error that ends it, unless the connection was closed normally.
  unfoldable pub start_deribit_reader :
      (ℕ → Offer) → List Read → ℕ → List (DeribitParsedTrade D) × Option DeribitError
  unfolding read_deribit_message
  start_deribit_reader offers [] n = ([], some context_ended)
  start_deribit_reader offers (failure ended timed_out normal_close ∷ reads) n =
      ([], if ended then some context_ended else if normal_close then none else some read_failed)
  start_deribit_reader offers (frame message ∷ reads) n =
      read_deribit_message (start_deribit_reader offers reads) offers n (deribit_message message)

-- What a session leaves: the adapter and its channel, the errors that it reports while it runs, and
-- the error that it ends with, if it does.
pub record DeribitEnd (D : Type 0) : Type 0 where
  pub state : Deribit × Channel D
  pub reported : List DeribitError
  pub error : Option DeribitError

module _ {D : Type 0} where
  -- The loops of `run` over the recovered trades, those that were buffered before the
  -- acknowledgement, and those of the stream.
  unfoldable pub emit_deribit_session :
      Deribit × Channel D
      → List (DeribitParsedTrade D) × List DeribitError
      → List (DeribitParsedTrade D)
      → List (DeribitParsedTrade D) × Option DeribitError
      → DeribitEnd D
  unfolding emit_deribit_trades
  emit_deribit_session s (recovered, errors) buffered (stream, stream_error) =
      let (s1, first) = emit_deribit_trades s recovered in
      let (s2, second) = emit_deribit_trades s1 buffered in
      let (s3, third) = emit_deribit_trades s2 stream in
      if not first
      then record { state = s1; reported = errors; error = some context_ended }
      else if not second
      then record { state = s2; reported = errors; error = some context_ended }
      else record {
        state = s3;
        reported = errors;
        error = if third then stream_error else some context_ended;
      }

-- what the loop of `Trades` does behind a session: whether it goes on, and what it reports
unfoldable pub after_deribit_session : Option DeribitError → Bool × List DeribitError
after_deribit_session none = (true, [])
after_deribit_session (some context_ended) = (false, [])
after_deribit_session (some e) = (true, e ∷ [])

module _ {D : Type 0} ⦃ops : DecimalOps D⦄ ⦃json : Json⦄ (formats : DeribitFormats) where
  -- `run`. The backlog has room for what was buffered, whose number is limited.
  unfoldable pub run_deribit : Deribit × Channel D → DeribitInput → DeribitEnd D
  unfolding await_deribit_subscription start_deribit_reader recover_deribit_trades
      emit_deribit_session
  run_deribit (d, channel) input =
      if not input.connected
      then record { state = (d, channel); reported = []; error = some dial_failed }
      else elim (await_deribit_subscription {D = D} formats d input.reads []) [
        | err e ↦ record { state = (d, channel); reported = []; error = some e }
        | ok (buffered, unread) ↦
            emit_deribit_session (d, channel) (recover_deribit_trades d input.attempts) buffered
              (start_deribit_reader formats d input.offers unread 0)
      ]

  -- `Trades`: the sessions one after the other, with what is reported
  unfoldable pub run_deribit_sessions :
      Deribit × Channel D → List DeribitInput → (Deribit × Channel D) × List DeribitError
  unfolding run_deribit after_deribit_session
  run_deribit_sessions s [] = (s, [])
  run_deribit_sessions s (input ∷ inputs) =
      let end = run_deribit s input in
      let (goes_on, errors) = after_deribit_session end.error in
      let later = run_deribit_sessions end.state inputs in
      if goes_on then (later.0, end.reported ++ (errors ++ later.1)) else (end.state, end.reported)
