-- ===== src/Exchanges/Binance/Reconnected.antt =====
-- The trades that the sessions of Binance send, one session after the other.
use go_quant_tick.Common.{
  Option, List, [], ◌∷◌, Text, Word, text_Eq, Dict, All, Bool-cases, Result-cases, inl, inr,
}
use go_quant_tick.Trade.{DecimalOps}
use go_quant_tick.Exchanges.Protocol.{Json}
use go_quant_tick.Exchanges.Runtime.{Channel}
use go_quant_tick.Exchanges.Binance.{Binance, BinanceError, BinanceParsedTrade, emit_each}
use go_quant_tick.Exchanges.Binance.Protocol.{BinanceJson}
use go_quant_tick.Exchanges.Binance.Session.{
  SessionInput, await_subscription, emit_session, after_session, run, run_sessions,
}
use go_quant_tick.Exchanges.Binance.Once.{IsParsed, IsOnce, emit_each-IsOnce}
use go_quant_tick.Exchanges.Binance.Parsed.{
  DecodesInt64, await_subscription-IsParsed, start_trade_reader-IsParsed, recover_trades-IsParsed,
}

module _ {D : Type 0} where
  emit_session-IsOnce :
      (b : Binance) (ids : Dict Text Word) (channel : Channel D)
      (recovered : List (BinanceParsedTrade D) × List BinanceError)
      (buffered : List (BinanceParsedTrade D))
      (stream : List (BinanceParsedTrade D) × Option BinanceError)
      → All IsParsed recovered.0
      → All IsParsed buffered
      → All IsParsed stream.0
      → IsOnce b channel
      → IsOnce
          (emit_session (b, ids, channel) recovered buffered stream).adapter
          (emit_session (b, ids, channel) recovered buffered stream).channel
  unfolding emit_session
  emit_session-IsOnce b ids channel recovered buffered stream pr pb ps o =
      let first = emit_each (b, ids, channel) recovered.0 in
      let once = emit_each-IsOnce b ids channel recovered.0 pr o in
      let second = emit_each first.0 buffered in
      let twice = emit_each-IsOnce first.0.0 first.0.1 first.0.2 buffered pb once in
      elim (Bool-cases first.1) [
        | inr ended ↦ rw ended once
        | inl more ↦ elim (Bool-cases second.1) [
          | inr ended ↦ rw (more, ended) twice
          | inl last ↦
              rw (more, last) (emit_each-IsOnce second.0.0 second.0.1 second.0.2 stream.0 ps twice)
        ]
      ]

module _ (D : Type 0) ⦃ops : DecimalOps D⦄ ⦃json : Json⦄ (decode : BinanceJson)
    (int64 : DecodesInt64 decode) where
  run-IsOnce :
      (b : Binance) (channel : Channel D) (input : SessionInput)
      → IsOnce b channel
      → IsOnce (run decode (b, channel) input).adapter (run decode (b, channel) input).channel
  unfolding run
  run-IsOnce b channel input o = elim (Bool-cases input.connected) [
    | inr refused ↦ rw refused o
    | inl connected ↦
        elim (Result-cases (await_subscription {D = D} decode b input.reads [] b.last_ids)) [
          | inr (e, refused) ↦ rw (connected, refused, run) o
          | inl (subscribed, done) ↦
              rw (connected, done, run)
                (emit_session-IsOnce b subscribed.sequence_ids channel _ subscribed.buffered _
                  (recover_trades-IsParsed D decode int64 b input.futures_attempts
                    input.spot_attempts o.market)
                  (await_subscription-IsParsed D decode int64 b input.reads [] b.last_ids subscribed
                    tt done)
                  (start_trade_reader-IsParsed D decode int64 b subscribed.unread
                    subscribed.sequence_ids)
                  o)
        ]
  ]

-- Where the trades in the channel were each sent once and are not above the last IDs of the adapter,
-- as in the beginning, it is so behind any number of sessions, whatever the connections, the
-- messages and the recovery give and wherever the context ends: no two trades in the channel have
-- the same symbol and UID, also across reconnections. The adapter is that of the futures market or
-- reads the stream of the spot market, and the IDs that messages are decoded to are int64.
pub run_sessions-IsOnce :
    {D : Type 0} ⦃ops : DecimalOps D⦄ ⦃json : Json⦄ (decode : BinanceJson)
    → DecodesInt64 decode
    → (b : Binance) (channel : Channel D) (inputs : List SessionInput) → IsOnce b channel
    → IsOnce
        (run_sessions decode (b, channel) inputs).0.0
        (run_sessions decode (b, channel) inputs).0.1
unfolding run_sessions
run_sessions-IsOnce decode int64 b channel [] o = o
run_sessions-IsOnce {D} decode int64 b channel (input ∷ inputs) o =
    let after = run decode (b, channel) input in
    let once = run-IsOnce D decode int64 b channel input o in
    elim (Bool-cases (after_session after.error).0) [
      | inr ended ↦ rw ended once
      | inl more ↦
          rw more (run_sessions-IsOnce decode int64 after.adapter after.channel inputs once)
    ]
