-- ===== src/Exchanges/Deribit/Reconnected.antt =====
-- The trades that the sessions of Deribit mark as sequential, also across reconnections.
use go_quant_tick.Common.{
  Option, List, [], ◌∷◌, All, OkHas, subst, Bool-cases, Result-cases, inl, inr,
}
use go_quant_tick.Trade.{DecimalOps}
use go_quant_tick.Exchanges.Protocol.{Json}
use go_quant_tick.Exchanges.Runtime.{Channel}
use go_quant_tick.Exchanges.Deribit.{
  Deribit, DeribitError, DeribitFormats, DeribitParsedTrade, emit_deribit_trades,
}
use go_quant_tick.Exchanges.Deribit.Session.{
  DeribitInput, await_deribit_subscription, emit_deribit_session, after_deribit_session,
  run_deribit, run_deribit_sessions,
}
use go_quant_tick.Exchanges.Deribit.Sequential.{HasNumber, IsTracked, emit_deribit_trades-IsTracked}
use go_quant_tick.Exchanges.Deribit.Numbered.{
  recover_deribit_trades-HasNumber, await_deribit_subscription-HasNumber,
  start_deribit_reader-HasNumber,
}

module _ {D : Type 0} where
  emit_deribit_session-IsTracked :
      (s : Deribit × Channel D) (recovered : List (DeribitParsedTrade D) × List DeribitError)
      (buffered : List (DeribitParsedTrade D))
      (stream : List (DeribitParsedTrade D) × Option DeribitError)
      → All HasNumber recovered.0
      → All HasNumber buffered
      → All HasNumber stream.0
      → IsTracked s
      → IsTracked (emit_deribit_session s recovered buffered stream).state
  unfolding emit_deribit_session
  emit_deribit_session-IsTracked s recovered buffered stream nr nb ns t =
      let first = emit_deribit_trades s recovered.0 in
      let t1 = emit_deribit_trades-IsTracked s recovered.0 nr t in
      let second = emit_deribit_trades first.0 buffered in
      let t2 = emit_deribit_trades-IsTracked first.0 buffered nb t1 in
      elim (Bool-cases first.1) [
        | inr ended ↦ rw ended t1
        | inl more ↦ elim (Bool-cases second.1) [
          | inr ended ↦ rw (more, ended) t2
          | inl last ↦ rw (more, last) (emit_deribit_trades-IsTracked second.0 stream.0 ns t2)
        ]
      ]

module _ (D : Type 0) ⦃ops : DecimalOps D⦄ ⦃json : Json⦄ (formats : DeribitFormats) where
  run_deribit-IsTracked :
      (s : Deribit × Channel D) (input : DeribitInput)
      → IsTracked s
      → IsTracked (run_deribit formats s input).state
  unfolding run_deribit
  run_deribit-IsTracked (d, channel) input t = elim (Bool-cases input.connected) [
    | inr refused ↦ rw refused t
    | inl connected ↦
        elim (Result-cases (await_deribit_subscription {D = D} formats d input.reads [])) [
          | inr (e, refused) ↦ rw (connected, refused, run_deribit) t
          | inl (subscribed, done) ↦
              rw (connected, done, run_deribit)
                (emit_deribit_session-IsTracked (d, channel) _ subscribed.0 _
                  (recover_deribit_trades-HasNumber D d input.attempts)
                  (subst (OkHas (λ found. All HasNumber found.0)) done
                    (await_deribit_subscription-HasNumber D formats d input.reads [] tt))
                  (start_deribit_reader-HasNumber D formats d input.offers subscribed.1 0) t)
        ]
  ]

-- Where the trades with the last sequence numbers are in the channel, and where a trade in it is
-- marked as sequential the one before it in the sequence came earlier, as in the beginning, it is so
-- behind any number of sessions, whatever the connections, the messages and the recovery give and
-- wherever the context ends: no trade is marked as sequential behind a gap, also across
-- reconnections.
pub run_deribit_sessions-IsTracked :
    {D : Type 0} ⦃ops : DecimalOps D⦄ ⦃json : Json⦄ (formats : DeribitFormats)
    (s : Deribit × Channel D) (inputs : List DeribitInput)
    → IsTracked s
    → IsTracked (run_deribit_sessions formats s inputs).0
unfolding run_deribit_sessions
run_deribit_sessions-IsTracked formats s [] t = t
run_deribit_sessions-IsTracked {D} formats s (input ∷ inputs) t =
    let end = run_deribit formats s input in
    let t' = run_deribit-IsTracked D formats s input t in
    elim (Bool-cases (after_deribit_session end.error).0) [
      | inr ended ↦ rw ended t'
      | inl more ↦ rw more (run_deribit_sessions-IsTracked formats end.state inputs t')
    ]
