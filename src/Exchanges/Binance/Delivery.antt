-- ===== src/Exchanges/Binance/Delivery.antt =====
-- emitParsedTrade of quanttick/exchanges/binance.go on a run of trades without gaps.
use go_quant_tick.Common.{
  ℕ, zero, suc, ◌≤◌, ◌≡◌, Bool, true, false, Option, none, some, List, [], ◌∷◌, ◌++◌, Text, Word,
  text_Eq, text_eq, text_eq_iff, Dict, lookup, insert, lookup-insert, lookup-insert_self,
  if◌then◌else◌, int_add, int_lt, nat_eq_iff, length, All, append_assoc, append-nil, subst, arith,
  refl, Bool-cases, Option-cases, inl, inr, ◌⊎◌, ◌∙◌, sym, ap,
}
use go_quant_tick.Trade.{TradeEvent}
use go_quant_tick.Exchanges.Runtime.{Channel}
use go_quant_tick.Exchanges.Binance.{
  Binance, BinanceParsedTrade, emit_parsed_trade, emit_each, above_last, follows_last, raise_last,
}
use go_quant_tick.Exchanges.Binance.Once.{emit_new_sent, emit_old, int_lt_stays, int_lt_irrefl}

-- The ID is at most the one behind the last ID.
abbrev pub UpToNext : Option Word → Word → Type 0
UpToNext none trade_id = ⊥
UpToNext (some previous) trade_id =
    (int_lt previous trade_id ≡ false) ⊎ (trade_id ≡ int_add previous 1)

-- The last ID of the symbol has come to the ID.
abbrev pub Reached : Dict Text Word → Text → Word → Type 0
Reached last_ids symbol trade_id =
    (last_id : Word) × (lookup symbol last_ids ≡ some last_id) × (int_lt last_id trade_id ≡ false)

-- The last IDs only go up.
abbrev pub StaysReached : Dict Text Word → Dict Text Word → Type 0
StaysReached before after =
    (symbol : Text) (trade_id : Word)
    → Reached before symbol trade_id
    → Reached after symbol trade_id

insert-StaysReached :
    (last_ids : Dict Text Word) (symbol : Text) (trade_id : Word)
    → above_last (lookup symbol last_ids) trade_id ≡ true
    → StaysReached last_ids (insert symbol trade_id last_ids)
unfolding above_last
insert-StaysReached last_ids symbol trade_id new other old_id (last_id, known, reached) =
    elim (Bool-cases (text_eq symbol other)) [
      | inr apart ↦
          (last_id, lookup-insert symbol other trade_id last_ids ∙ rw apart known, reached)
      | inl same ↦
          let known' : lookup symbol last_ids ≡ some last_id =
            ap (λ (s : Text). lookup s last_ids) ((text_eq_iff symbol other).0 same) ∙ known in
          (
            trade_id,
            lookup-insert symbol other trade_id last_ids ∙ rw same refl,
            int_lt_stays last_id trade_id old_id (rw (known', above_last) at new) reached,
          )
    ]

-- A trade that is not above the last ID is one that has been reached.
Reached-old :
    (last_ids : Dict Text Word) (symbol : Text) (trade_id : Word)
    → above_last (lookup symbol last_ids) trade_id ≡ false
    → Reached last_ids symbol trade_id
unfolding above_last
Reached-old last_ids symbol trade_id old = elim (Option-cases (lookup symbol last_ids)) [
  | inl e ↦ cc (rw (e, above_last) at old)
  | inr (last_id, e) ↦ (last_id, e, rw (e, above_last) at old)
]

-- A trade above the last ID that is at most the next one comes right behind it.
follows_next :
    (last : Option Word) (trade_id : Word)
    → UpToNext last trade_id
    → above_last last trade_id ≡ true
    → follows_last last trade_id ≡ true
unfolding above_last follows_last
follows_next none trade_id next new = absurd next
follows_next (some previous) trade_id (inl old) new = cc
follows_next (some previous) trade_id (inr next) new =
    (nat_eq_iff trade_id (int_add previous 1)).1 next

raise_old :
    (last_ids : Dict Text Word) (symbol : Text) (trade_id : Word)
    → above_last (lookup symbol last_ids) trade_id ≡ false
    → raise_last symbol trade_id last_ids ≡ last_ids
unfolding raise_last
raise_old last_ids symbol trade_id old = rw old refl

pub raise_new :
    (last_ids : Dict Text Word) (symbol : Text) (trade_id : Word)
    → above_last (lookup symbol last_ids) trade_id ≡ true
    → raise_last symbol trade_id last_ids ≡ insert symbol trade_id last_ids
unfolding raise_last
raise_new last_ids symbol trade_id new = rw new refl

-- the ID that comes `n` IDs behind another
abbrev pub advance : Word → ℕ → Word
advance trade_id zero = trade_id
advance trade_id (suc n) = advance (int_add trade_id 1) n

module _ {D : Type 0} where
  -- Every trade is at most the next one of its symbol, when those before it have been seen.
  abbrev pub NoGaps : Dict Text Word → List (BinanceParsedTrade D) → Type 0
  NoGaps last_ids [] = Unit
  NoGaps last_ids (trade ∷ trades) =
      UpToNext (lookup trade.event.symbol last_ids) trade.trade_id
      × NoGaps (raise_last trade.event.symbol trade.trade_id last_ids) trades

  abbrev pub IsSequential : TradeEvent D → Type 0
  IsSequential event = event.is_sequential ≡ true

  -- how many trades of a symbol there are
  abbrev pub count_of : Text → List (TradeEvent D) → ℕ
  count_of symbol [] = 0
  count_of symbol (event ∷ events) =
      let rest = count_of symbol events in if text_eq event.symbol symbol then suc rest else rest

  -- The last ID of every symbol has gone up by the number of the symbol's trades.
  abbrev pub Advances : Dict Text Word → List (TradeEvent D) → Dict Text Word → Type 0
  Advances before added after =
      (symbol : Text) (last_id : Word)
      → lookup symbol before ≡ some last_id
      → lookup symbol after ≡ some (advance last_id (count_of symbol added))

  Advances-next :
      (before after : Dict Text Word) (event : TradeEvent D) (added : List (TradeEvent D))
      (trade_id : Word)
      → follows_last (lookup event.symbol before) trade_id ≡ true
      → Advances (insert event.symbol trade_id before) added after
      → Advances before (event ∷ added) after
  unfolding follows_last
  Advances-next before after event added trade_id follows rest symbol last_id known =
      elim (Bool-cases (text_eq event.symbol symbol)) [
        | inr apart ↦ rw apart (
            rest symbol last_id
              (lookup-insert event.symbol symbol trade_id before ∙ rw apart known))
        | inl same ↦
            let known' : lookup event.symbol before ≡ some last_id =
              ap (λ (s : Text). lookup s before) ((text_eq_iff event.symbol symbol).0 same)
              ∙ known in
            let next : trade_id ≡ int_add last_id 1 =
              (nat_eq_iff trade_id (int_add last_id 1)).0 (rw (known', follows_last) at follows) in
            rw same (
              rest symbol trade_id
                (lookup-insert event.symbol symbol trade_id before ∙ rw same refl)
              ∙ ap (λ (w : Word). some (advance w (count_of symbol added))) next)
      ]

  -- Behind `trades` all of them have been reached, and what was sent is sequential.
  pub record Delivers (before : Dict Text Word) (sent : List (TradeEvent D))
      (trades : List (BinanceParsedTrade D)) (after : (Binance × Dict Text Word × Channel D) × Bool)
      : Type 0 where
    pub delivered : after.1 ≡ true
    pub added : List (TradeEvent D)
    pub sent_lem : after.0.2.sent ≡ sent ++ added
    pub sequential : All IsSequential added
    pub reached : All (λ trade. Reached after.0.0.last_ids trade.event.symbol trade.trade_id) trades
    pub advances : Advances before added after.0.0.last_ids
    pub stays : StaysReached before after.0.0.last_ids

  emit_more :
      (s : Binance × Dict Text Word × Channel D) (trade : BinanceParsedTrade D)
      (trades : List (BinanceParsedTrade D)) (s' : Binance × Dict Text Word × Channel D)
      → emit_parsed_trade s trade ≡ (s', true)
      → emit_each s (trade ∷ trades) ≡ emit_each s' trades
  unfolding emit_each
  emit_more s trade trades s' h = rw (h, emit_each) refl

  -- Where each trade is at most the next one of its symbol, when those before it have been seen, and
  -- the context does not end before the trades are received, the loop comes to its end: behind it
  -- the last ID of its symbol has come to every one of the trades, all that was sent is marked as
  -- sequential, and the last ID of every symbol has gone up by the number of its trades that were
  -- sent.
  pub emit_each-Delivers :
      (b : Binance) (sequence_ids : Dict Text Word) (sent : List (TradeEvent D)) (room : ℕ)
      (trades : List (BinanceParsedTrade D))
      → length trades ≤ room
      → NoGaps b.last_ids trades
      → Delivers b.last_ids sent trades
          (emit_each (b, sequence_ids, record { sent = sent; room = room }) trades)
  unfolding emit_each
  emit_each-Delivers b sequence_ids sent room [] h gaps = record {
    delivered = refl;
    added = [];
    sent_lem = sym (append-nil sent);
    sequential = tt;
    reached = tt;
    advances = λ symbol last_id known. known;
    stays = λ symbol trade_id r. r;
  }
  emit_each-Delivers b sequence_ids sent zero (trade ∷ trades) h gaps = absurd (omega arith)
  emit_each-Delivers b sequence_ids sent (suc room) (trade ∷ trades) h gaps =
      let symbol = trade.event.symbol in
      elim (Bool-cases (above_last (lookup symbol b.last_ids) trade.trade_id)) [
        | inr old ↦
            let rest = emit_each-Delivers b sequence_ids sent (suc room) trades (omega arith) (
              subst (λ (ids : Dict Text Word). NoGaps ids trades)
                (raise_old b.last_ids symbol trade.trade_id old) gaps.1) in
            rw
              (emit_more _ trade trades _
                (emit_old b sequence_ids (record { sent = sent; room = suc room }) trade old))
              (record {
                delivered = rest.delivered;
                added = rest.added;
                sent_lem = rest.sent_lem;
                sequential = rest.sequential;
                reached = (
                  rest.stays symbol trade.trade_id
                      (Reached-old b.last_ids symbol trade.trade_id old),
                  rest.reached,
                );
                advances = rest.advances;
                stays = rest.stays;
              })
        | inl new ↦
            let event : TradeEvent D = record trade.event {
              is_sequential = follows_last (lookup symbol b.last_ids) trade.trade_id;
            } in
            let follows = follows_next (lookup symbol b.last_ids) trade.trade_id gaps.0 new in
            let b' : Binance = record b { last_ids = insert symbol trade.trade_id b.last_ids } in
            let rest =
              emit_each-Delivers b' (insert symbol trade.trade_id sequence_ids) (sent ++ event ∷ [])
                room trades (omega arith)
                (subst (λ (ids : Dict Text Word). NoGaps ids trades)
                  (raise_new b.last_ids symbol trade.trade_id new) gaps.1) in
            let stays = insert-StaysReached b.last_ids symbol trade.trade_id new in
            rw (emit_more _ trade trades _ (emit_new_sent b sequence_ids trade new sent room))
              (record {
                delivered = rest.delivered;
                added = event ∷ rest.added;
                sent_lem = rest.sent_lem ∙ append_assoc sent (event ∷ []) rest.added;
                sequential = (follows, rest.sequential);
                reached = (
                  rest.stays symbol trade.trade_id (
                    trade.trade_id,
                    lookup-insert_self symbol trade.trade_id b.last_ids,
                    int_lt_irrefl trade.trade_id,
                  ),
                  rest.reached,
                );
                advances =
                    Advances-next b.last_ids _ event rest.added trade.trade_id follows
                      rest.advances;
                stays = λ other old_id r. rest.stays other old_id (stays other old_id r);
              })
      ]
