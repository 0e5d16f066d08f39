-- ===== src/Exchanges/Deribit/Sequential.antt =====
-- emitParsedTrade of quanttick/exchanges/deribit.go: the trades that it marks as sequential.
use go_quant_tick.Common.{
  ℕ, zero, suc, ◌≡◌, Bool, true, false, ◌&&◌, ◌||◌, Option, none, some, List, [], ◌∷◌, ◌++◌, Text,
  Word, text_Eq, text_eq, text_eq_iff, Dict, lookup, lookup-insert, int_add, format_int, All, arith,
  refl, Bool-cases, Option-cases, inl, inr, nat_eq_iff, ◌⊎◌, ◌∙◌, sym, ap, subst, append-nil,
  append_assoc,
}
use go_quant_tick.Trade.{TradeEvent}
use go_quant_tick.Exchanges.Runtime.{Channel, send_trade}
use go_quant_tick.Recovery.Seen.{add_seen}
use go_quant_tick.Exchanges.Deribit.{
  Deribit, DeribitParsedTrade, emit_unseen, emit_deribit_trade, emit_deribit_trades,
  next_in_sequence, raise_sequence,
}

-- what the last sequence numbers are behind a trade that is sent
raised_cases :
    (previous : Option Word) (symbol other : Text) (sequence found : Word)
    (last_sequences : Dict Text Word)
    → lookup other (raise_sequence previous symbol sequence last_sequences) ≡ some found
    → (text_eq symbol other ≡ true) × (found ≡ sequence)
      ⊎ (lookup other last_sequences ≡ some found)
unfolding raise_sequence
raised_cases none symbol other sequence found last_sequences h =
    ground (arith, lookup-insert symbol other sequence last_sequences)
raised_cases (some previous) symbol other sequence found last_sequences h =
    ground (arith, lookup-insert symbol other sequence last_sequences)

module _ {D : Type 0} where
  -- whether the trade of `symbol` with the UID `uid` is among some trades
  abbrev pub has_trade : Text → Text → List (TradeEvent D) → Bool
  has_trade symbol uid [] = false
  has_trade symbol uid (event ∷ events) =
      text_eq event.symbol symbol && text_eq event.uid uid || has_trade symbol uid events

  -- Where a trade is marked as sequential, the trade of its symbol with the number before its own is
  -- among those before it.
  abbrev pub IsMarked : List (TradeEvent D) → TradeEvent D → Type 0
  IsMarked before event =
      event.is_sequential ≡ true
      → (previous : Word) × (event.uid ≡ format_int (int_add previous 1))
        × (has_trade event.symbol (format_int previous) before ≡ true)

  abbrev pub AllMarked : List (TradeEvent D) → List (TradeEvent D) → Type 0
  AllMarked before [] = Unit
  AllMarked before (event ∷ events) =
      IsMarked before event × AllMarked (before ++ event ∷ []) events

  -- The UID of a trade is the print of its sequence number.
  abbrev pub HasNumber : DeribitParsedTrade D → Type 0
  HasNumber parsed = parsed.event.uid ≡ format_int parsed.sequence

  -- The trades with the last sequence numbers are in the channel, and where a trade in it is marked
  -- as sequential, the trade before it in the sequence came earlier.
  pub record IsTracked (s : Deribit × Channel D) : Type 0 where
    pub tracked :
        (symbol : Text) (sequence : Word)
        → lookup symbol s.0.last_sequences ≡ some sequence
        → has_trade symbol (format_int sequence) s.1.sent ≡ true
    pub marked : AllMarked [] s.1.sent

  has_trade-append :
      (symbol uid : Text) (xs ys : List (TradeEvent D))
      → has_trade symbol uid (xs ++ ys) ≡ has_trade symbol uid xs || has_trade symbol uid ys
  has_trade-append symbol uid [] ys = refl
  has_trade-append symbol uid (x ∷ xs) ys = ground (arith, has_trade-append symbol uid xs ys)

  AllMarked-append :
      (before xs : List (TradeEvent D)) (event : TradeEvent D)
      → AllMarked before xs
      → IsMarked (before ++ xs) event
      → AllMarked before (xs ++ event ∷ [])
  AllMarked-append before [] event h k =
      (subst (λ seen. IsMarked seen event) (append-nil before) k, tt)
  AllMarked-append before (x ∷ xs) event h k = (
    h.0,
    AllMarked-append (before ++ x ∷ []) xs event h.1
        (subst (λ seen. IsMarked seen event) (sym (append_assoc before (x ∷ []) xs)) k),
  )

  sent_event : Deribit → DeribitParsedTrade D → TradeEvent D
  sent_event d parsed = record parsed.event {
    is_sequential = next_in_sequence (lookup parsed.event.symbol d.last_sequences) parsed.sequence;
  }

  sent_event-IsMarked :
      (d : Deribit) (channel : Channel D) (parsed : DeribitParsedTrade D)
      → HasNumber parsed
      → IsTracked (d, channel)
      → IsMarked channel.sent (sent_event d parsed)
  unfolding sent_event next_in_sequence
  sent_event-IsMarked d channel parsed n t h =
      elim (Option-cases (lookup parsed.event.symbol d.last_sequences)) [
        | inl e ↦ cc (rw (e, next_in_sequence) at h)
        | inr (previous, e) ↦ (
          previous,
          n
              ∙ ap format_int (
                  (nat_eq_iff parsed.sequence (int_add previous 1)).0
                    (rw (e, next_in_sequence) at h)),
          t.tracked parsed.event.symbol previous e,
        )
      ]

  sent_event-tracked :
      (d : Deribit) (channel : Channel D) (parsed : DeribitParsedTrade D) (symbol : Text)
      (sequence : Word)
      → HasNumber parsed
      → IsTracked (d, channel)
      → lookup symbol (
          raise_sequence
            (lookup parsed.event.symbol d.last_sequences)
            parsed.event.symbol
            parsed.sequence
            d.last_sequences)
        ≡ some sequence
      → has_trade symbol (format_int sequence) (channel.sent ++ sent_event d parsed ∷ []) ≡ true
  unfolding sent_event
  sent_event-tracked d channel parsed symbol sequence n t h =
      elim (raised_cases (lookup parsed.event.symbol d.last_sequences) parsed.event.symbol symbol
        parsed.sequence sequence d.last_sequences h) [
          | inl (same, numbered) ↦
              let uid : text_eq parsed.event.uid (format_int sequence) ≡ true =
                (text_eq_iff parsed.event.uid (format_int sequence)).1
                  (n ∙ ap format_int (sym numbered)) in
              ground (
                arith,
                has_trade-append symbol (format_int sequence) channel.sent
                    (sent_event d parsed ∷ []),
              )
          | inr old ↦ ground (
            arith,
            has_trade-append symbol (format_int sequence) channel.sent (sent_event d parsed ∷ []),
            t.tracked symbol sequence old,
          )
        ]

  emit_unseen-IsTracked :
      (d : Deribit) (sent : List (TradeEvent D)) (room : ℕ) (parsed : DeribitParsedTrade D)
      → HasNumber parsed
      → IsTracked (d, record { sent = sent; room = room })
      → IsTracked (emit_unseen (d, record { sent = sent; room = room }) parsed).0
  unfolding emit_unseen send_trade sent_event
  emit_unseen-IsTracked d sent zero parsed n t = t
  emit_unseen-IsTracked d sent (suc room) parsed n t = record {
    tracked = λ symbol sequence h.
        sent_event-tracked d (record { sent = sent; room = suc room }) parsed symbol sequence n t h;
    marked =
        AllMarked-append [] sent (sent_event d parsed) t.marked
          (sent_event-IsMarked d (record { sent = sent; room = suc room }) parsed n t);
  }

  emit_deribit_trade-IsTracked :
      (s : Deribit × Channel D) (parsed : DeribitParsedTrade D)
      → HasNumber parsed
      → IsTracked s
      → IsTracked (emit_deribit_trade s parsed).0
  unfolding emit_deribit_trade
  emit_deribit_trade-IsTracked (d, channel) parsed n t =
      let added = add_seen d.seen parsed.event.symbol parsed.event.uid in
      let t' : IsTracked (record d { seen = added.0 }, channel) = record {
        tracked = t.tracked;
        marked = t.marked;
      } in
      elim (Bool-cases added.1) [
        | inr known ↦ rw known t'
        | inl fresh ↦ rw fresh (
            emit_unseen-IsTracked (record d { seen = added.0 }) channel.sent channel.room parsed n
              t')
      ]

  -- Where the trades with the last sequence numbers are in the channel, and where a trade in it is
  -- marked as sequential the one before it in the sequence came earlier, as in the beginning, it is so
  -- behind any trades whose UIDs are the prints of their numbers, whatever their order, repetitions
  -- and gaps, and wherever the context ends.
  pub emit_deribit_trades-IsTracked :
      (s : Deribit × Channel D) (trades : List (DeribitParsedTrade D))
      → All HasNumber trades
      → IsTracked s
      → IsTracked (emit_deribit_trades s trades).0
  unfolding emit_deribit_trades
  emit_deribit_trades-IsTracked s [] n t = t
  emit_deribit_trades-IsTracked s (parsed ∷ trades) n t =
      let step = emit_deribit_trade s parsed in
      let t' = emit_deribit_trade-IsTracked s parsed n.0 t in
      elim (Bool-cases step.1) [
        | inr ended ↦ rw ended t'
        | inl delivered ↦ rw delivered (emit_deribit_trades-IsTracked step.0 trades n.1 t')
      ]
