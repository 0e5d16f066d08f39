-- ===== src/Exchanges/Deribit/Admitted.antt =====
-- ParseTradeMessage of quanttick/exchanges/deribit_protocol.go against emitParsedTrade of
-- quanttick/exchanges/deribit.go, which both have a copy of the same steps.
use go_quant_tick.Common.{
  ℕ, zero, suc, ◌≡◌, ◌≤◌, List, [], ◌∷◌, ◌++◌, append_assoc, append-nil, length, Bool-cases, inl,
  inr, refl, arith, sym, lookup, text_Eq, ◌∙◌,
}
use go_quant_tick.Trade.{TradeEvent}
use go_quant_tick.Recovery.Seen.{add_seen}
use go_quant_tick.Exchanges.Runtime.{send_trade}
use go_quant_tick.Exchanges.Deribit.{
  Deribit, DeribitParsedTrade, emit_unseen, emit_deribit_trade, emit_deribit_trades,
  next_in_sequence, raise_sequence,
}
use go_quant_tick.Exchanges.Deribit.Protocol.{admit_deribit_trades}

module _ {D : Type 0} where
  -- Where the context does not end before the trades are received, the loops of `run` leave the
  -- adapter as the loop of ParseTradeMessage does, and send the trades that it returns, in its order
  -- and with its marks, behind those that were sent before.
  pub emit_deribit_trades-admit_deribit_trades :
      (d : Deribit) (sent : List (TradeEvent D)) (room : ℕ) (trades : List (DeribitParsedTrade D))
      → length trades ≤ room
      → ((emit_deribit_trades (d, record { sent = sent; room = room }) trades).0.0
          ≡ (admit_deribit_trades d trades).0)
        × ((emit_deribit_trades (d, record { sent = sent; room = room }) trades).0.1.sent
            ≡ sent ++ (admit_deribit_trades d trades).1)
  unfolding emit_deribit_trades emit_deribit_trade emit_unseen send_trade admit_deribit_trades
  emit_deribit_trades-admit_deribit_trades d sent room [] h = (refl, sym (append-nil sent))
  emit_deribit_trades-admit_deribit_trades d sent zero (parsed ∷ trades) h = absurd (omega arith)
  emit_deribit_trades-admit_deribit_trades d sent (suc room) (parsed ∷ trades) h =
      elim (Bool-cases (add_seen d.seen parsed.event.symbol parsed.event.uid).1) [
        | inr known ↦ rw known (
            emit_deribit_trades-admit_deribit_trades
              (record d { seen = (add_seen d.seen parsed.event.symbol parsed.event.uid).0 }) sent
              (suc room) trades (omega arith))
        | inl fresh ↦
            let previous = lookup parsed.event.symbol d.last_sequences in
            let ih =
              emit_deribit_trades-admit_deribit_trades
                (record d {
                  seen = (add_seen d.seen parsed.event.symbol parsed.event.uid).0;
                  last_sequences =
                      raise_sequence previous parsed.event.symbol parsed.sequence d.last_sequences;
                })
                (sent
                  ++ record parsed.event {
                    is_sequential = next_in_sequence previous parsed.sequence;
                  }
                    ∷ [])
                room trades (omega arith) in
            rw fresh (ih.0, ih.1 ∙ append_assoc sent (_ ∷ []) _)
      ]
