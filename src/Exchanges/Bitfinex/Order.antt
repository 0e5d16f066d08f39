-- ===== src/Exchanges/Bitfinex/Order.antt =====
-- The order of the announcements of a symbol and that of its trades, in
-- quanttick/exchanges/bitfinex.go.
use go_quant_tick.Common.{
  ◌≡◌, false, List, [], ◌∷◌, ◌++◌, Text, Word, text_Eq, nat_Eq, text_eq, text_eq_iff, if◌then◌else◌,
  format_int, map, All, append_assoc, map-append, arith, refl, Bool-cases, inl, inr, ◌∙◌, sym, ap,
  subst,
}
use go_quant_tick.Trade.{DecimalOps, TradeEvent}
use go_quant_tick.Exchanges.Bitfinex.{
  Bitfinex, BitfinexTradeUpdate, Tag, te, tu, at_symbol, ensure_bitfinex_trade_state, is_old,
  is_announced, append_announced, enqueue_bitfinex_trade, store_bitfinex_trade_update, emit_ready,
  emit_ready_bitfinex_trades, handle_update,
}
use go_quant_tick.Exchanges.Bitfinex.Pending.{
  IsKeyed, IsKeyed-store, IsKeyed-ensure_entry, Waits, emit_ready-Emission, at_symbol-insert_self,
  at_symbol-insert_other, at_symbol-ensure_entry,
}

-- `xs` with some of its elements left out is `ys`, in the order of `xs`.
pub data IsPartOf : List Word → List Word → Type 0 where
  nothing : IsPartOf [] []
  keep : {ys xs : List Word} (id : Word) → IsPartOf ys xs → IsPartOf (id ∷ ys) (id ∷ xs)
  omit : {ys xs : List Word} (id : Word) → IsPartOf ys xs → IsPartOf ys (id ∷ xs)

IsPartOf-self : (xs : List Word) → IsPartOf xs xs
IsPartOf-self [] = nothing
IsPartOf-self (x ∷ xs) = keep x (IsPartOf-self xs)

IsPartOf-append :
    {ys xs : List Word} (vs us : List Word)
    → IsPartOf ys xs
    → IsPartOf vs us
    → IsPartOf (ys ++ vs) (xs ++ us)
IsPartOf-append vs us nothing q = q
IsPartOf-append vs us (keep id p) q = keep id (IsPartOf-append vs us p q)
IsPartOf-append vs us (omit id p) q = omit id (IsPartOf-append vs us p q)

IsPartOf-trans : {zs ys xs : List Word} → IsPartOf zs ys → IsPartOf ys xs → IsPartOf zs xs
IsPartOf-trans p nothing = p
IsPartOf-trans p (omit id q) = omit id (IsPartOf-trans p q)
IsPartOf-trans (keep id p) (keep _ q) = keep id (IsPartOf-trans p q)
IsPartOf-trans (omit id p) (keep _ q) = omit id (IsPartOf-trans p q)

-- What is announced for `symbol`, where `added` is for `other`.
abbrev pub for_symbol : Text → Text → List Word → List Word
for_symbol symbol other added = if text_eq other symbol then added else []

IsPartOf-kept : (xs us : List Word) → IsPartOf xs (xs ++ us)
IsPartOf-kept [] [] = nothing
IsPartOf-kept [] (u ∷ us) = omit u (IsPartOf-kept [] us)
IsPartOf-kept (x ∷ xs) us = keep x (IsPartOf-kept xs us)

both_ends : {ws xs ys zs : List Text} → ws ≡ xs → ys ≡ zs → ws ++ ys ≡ xs ++ zs
both_ends p q = λ i. p i ++ q i

-- What is emitted first and what waits behind it are in order, and so is what is emitted later.
ordered_on :
    (first rest waiting left order announced later : List Word)
    → IsPartOf (first ++ waiting) (order ++ announced)
    → IsPartOf (rest ++ left) (waiting ++ later)
    → IsPartOf ((first ++ rest) ++ left) (order ++ (announced ++ later))
ordered_on first rest waiting left order announced later p q =
    rw (append_assoc first rest left, ← append_assoc order announced later)
      (IsPartOf-trans (IsPartOf-append _ _ (IsPartOf-self first) q) (
        rw (← append_assoc first waiting later)
          (IsPartOf-append later later p (IsPartOf-self later))))

-- A message about a trade of a symbol.
pub record TradeMessage (D : Type 0) : Type 0 where
  pub symbol : Text
  pub tag : Tag
  pub update : BitfinexTradeUpdate D

module _ {D : Type 0} where
  -- What enqueuing or storing a trade of `other` does, before trades are emitted.
  record Prepared (other : Text) (added : List Word) (b b' : Bitfinex D) : Type 0 where
    keyed : IsKeyed b'.pending_updates
    part :
        (symbol : Text)
        → IsPartOf
            (at_symbol symbol b'.pending_order)
            (at_symbol symbol b.pending_order ++ for_symbol symbol other added)
    same_order :
        (symbol : Text)
        → text_eq other symbol ≡ false
        → at_symbol symbol b'.pending_order ≡ at_symbol symbol b.pending_order
    same_updates :
        (symbol : Text)
        → text_eq other symbol ≡ false
        → at_symbol symbol b'.pending_updates ≡ at_symbol symbol b.pending_updates

  ensure-Prepared :
      (b : Bitfinex D) (other : Text) (added : List Word)
      → IsKeyed b.pending_updates
      → Prepared other added b (ensure_bitfinex_trade_state b other)
  unfolding ensure_bitfinex_trade_state
  ensure-Prepared b other added k = record {
    keyed = IsKeyed-ensure_entry other b.pending_updates k;
    part =
        λ symbol. IsPartOf-kept (at_symbol symbol b.pending_order) (for_symbol symbol other added);
    same_order = λ symbol apart. refl;
    same_updates = λ symbol apart. at_symbol-ensure_entry other symbol b.pending_updates;
  }

  append-Prepared :
      (b : Bitfinex D) (other : Text) (trade_id : Word)
      → IsKeyed b.pending_updates
      → Prepared other
          (trade_id ∷ [])
          b
          (append_announced (ensure_bitfinex_trade_state b other) other trade_id)
  unfolding ensure_bitfinex_trade_state append_announced
  append-Prepared b other trade_id k =
      let longer = at_symbol other b.pending_order ++ trade_id ∷ [] in
      record {
        keyed = IsKeyed-ensure_entry other b.pending_updates k;
        part = λ symbol. elim (Bool-cases (text_eq other symbol)) [
          | inl same ↦
              let same_symbol : other ≡ symbol = (text_eq_iff other symbol).0 same in
              rw (same, ← same_symbol)
                (subst (λ (o : List Word). IsPartOf o longer)
                  (sym (at_symbol-insert_self other longer b.pending_order)) (IsPartOf-self longer))
          | inr apart ↦
              rw (apart, at_symbol-insert_other other symbol longer b.pending_order apart)
                (IsPartOf-kept (at_symbol symbol b.pending_order) [])
        ];
        same_order =
            λ symbol apart. at_symbol-insert_other other symbol longer b.pending_order apart;
        same_updates = λ symbol apart. at_symbol-ensure_entry other symbol b.pending_updates;
      }

  enqueue-Prepared :
      (b : Bitfinex D) (other : Text) (trade_id : Word)
      → IsKeyed b.pending_updates
      → Prepared other (trade_id ∷ []) b (enqueue_bitfinex_trade b other trade_id)
  unfolding enqueue_bitfinex_trade
  enqueue-Prepared b other trade_id k =
      let b' = ensure_bitfinex_trade_state b other in
      elim (Bool-cases (is_old b' other trade_id)) [
        | inl old ↦ rw old (ensure-Prepared b other (trade_id ∷ []) k)
        | inr new ↦ elim (Bool-cases (is_announced b' other trade_id)) [
          | inl known ↦ rw (new, known) (ensure-Prepared b other (trade_id ∷ []) k)
          | inr fresh ↦ rw (new, fresh) (append-Prepared b other trade_id k)
        ]
      ]

  store-Prepared :
      (b : Bitfinex D) (other : Text) (update : BitfinexTradeUpdate D)
      → IsKeyed b.pending_updates
      → Prepared other [] b (store_bitfinex_trade_update b other update)
  unfolding store_bitfinex_trade_update
  store-Prepared b other update k =
      let b' = ensure_bitfinex_trade_state b other in
      let ensured = ensure-Prepared b other [] k in
      elim (Bool-cases (is_old b' other update.trade_id)) [
        | inl old ↦ rw old ensured
        | inr new ↦ rw new (record {
          keyed = IsKeyed-store other update b'.pending_updates ensured.keyed;
          part = ensured.part;
          same_order = ensured.same_order;
          same_updates = λ symbol apart.
              at_symbol-insert_other other symbol _ b'.pending_updates apart
              ∙ ensured.same_updates symbol apart;
        })
      ]

  ensure_order :
      (b : Bitfinex D) (other symbol : Text)
      → at_symbol symbol (ensure_bitfinex_trade_state b other).pending_order
        ≡ at_symbol symbol b.pending_order
  unfolding ensure_bitfinex_trade_state
  ensure_order b other symbol = refl

  -- the UIDs of the trades of a symbol, in their order
  abbrev pub uids_of : Text → List (TradeEvent D) → List Text
  uids_of symbol [] = []
  uids_of symbol (event ∷ events) =
      let rest = uids_of symbol events in
      if text_eq event.symbol symbol then event.uid ∷ rest else rest

  uids_of_same :
      (symbol : Text) (events : List (TradeEvent D))
      → All (λ event. event.symbol ≡ symbol) events
      → uids_of symbol events ≡ map (λ (event : TradeEvent D). event.uid) events
  uids_of_same symbol [] h = refl
  uids_of_same symbol (event ∷ events) h =
      rw ((text_eq_iff event.symbol symbol).1 h.0, uids_of_same symbol events h.1) refl

  uids_of_other :
      (symbol other : Text) (events : List (TradeEvent D))
      → text_eq other symbol ≡ false
      → All (λ event. event.symbol ≡ other) events
      → uids_of symbol events ≡ []
  uids_of_other symbol other [] apart h = refl
  uids_of_other symbol other (event ∷ events) apart h =
      let differs : text_eq event.symbol symbol ≡ false = rw (h.0) apart in
      rw differs (uids_of_other symbol other events apart h.1)

  uids_of-append :
      (symbol : Text) (xs ys : List (TradeEvent D))
      → uids_of symbol (xs ++ ys) ≡ uids_of symbol xs ++ uids_of symbol ys
  uids_of-append symbol [] ys = refl
  uids_of-append symbol (x ∷ xs) ys = ground (arith, uids_of-append symbol xs ys)

  -- What holds of a symbol behind some messages: from the order before them and the announcements
  -- among them, the trades of the symbol that were emitted and those that still wait come in this
  -- order, and the first one that waits has no update.
  pub record Ordered (symbol : Text) (order announced : List Word) (after : Bitfinex D)
      (events : List (TradeEvent D)) : Type 0 where
    pub emitted : List Word
    pub uids : uids_of symbol events ≡ map format_int emitted
    pub in_order : IsPartOf (emitted ++ at_symbol symbol after.pending_order) (order ++ announced)
    pub waits :
        Waits (at_symbol symbol after.pending_updates) (at_symbol symbol after.pending_order)
    pub keyed : IsKeyed after.pending_updates

  -- the ID that a message announces
  abbrev pub announced_id : Tag → BitfinexTradeUpdate D → List Word
  announced_id te update = update.trade_id ∷ []
  announced_id tu update = []

  -- the IDs that are announced for a symbol, in the order of the messages
  abbrev pub announced_for : Text → List (TradeMessage D) → List Word
  announced_for symbol [] = []
  announced_for symbol (message ∷ messages) =
      for_symbol symbol message.symbol (announced_id message.tag message.update)
      ++ announced_for symbol messages

  module _ ⦃ops : DecimalOps D⦄ where
    emit_ready-Ordered :
        (symbol other : Text) (added : List Word) (b b' : Bitfinex D)
        → Prepared other added b b'
        → Waits (at_symbol symbol b.pending_updates) (at_symbol symbol b.pending_order)
        → Ordered symbol
            (at_symbol symbol b.pending_order)
            (for_symbol symbol other added)
            (emit_ready_bitfinex_trades b' other).0
            (emit_ready_bitfinex_trades b' other).1
    unfolding emit_ready_bitfinex_trades
    emit_ready-Ordered symbol other added b b' p w =
        let start = ensure_bitfinex_trade_state b' other in
        let ensured = ensure-Prepared b' other [] p.keyed in
        let done =
          emit_ready-Emission start other (at_symbol other b'.pending_order) ensured.keyed in
        let result = emit_ready start other (at_symbol other b'.pending_order) in
        elim (Bool-cases (text_eq other symbol)) [
          | inl same ↦
              let same_symbol : other ≡ symbol = (text_eq_iff other symbol).0 same in
              let bound = at_symbol other b.pending_order ++ for_symbol other other added in
              rw (← same_symbol) (record {
                emitted = done.emitted;
                uids = uids_of_same other result.2 done.of_symbol ∙ done.uids;
                in_order =
                    subst (λ (o : List Word). IsPartOf (done.emitted ++ o) bound)
                      (sym (at_symbol-insert_self other result.1 result.0.pending_order))
                      (subst (λ (o : List Word). IsPartOf o bound) (sym done.split) (p.part other));
                waits =
                    subst (Waits (at_symbol other result.0.pending_updates))
                      (sym (at_symbol-insert_self other result.1 result.0.pending_order))
                      done.waits;
                keyed = done.keyed;
              })
          | inr apart ↦
              let kept_order =
                at_symbol-insert_other other symbol result.1 result.0.pending_order apart
                ∙ ap (at_symbol symbol) done.orders
                ∙ ensure_order b' other symbol
                ∙ p.same_order symbol apart in
              let kept_updates =
                done.other symbol apart
                ∙ ensured.same_updates symbol apart
                ∙ p.same_updates symbol apart in
              record {
                emitted = [];
                uids = uids_of_other symbol other result.2 apart done.of_symbol;
                in_order = rw kept_order (
                    IsPartOf-kept (at_symbol symbol b.pending_order)
                      (for_symbol symbol other added));
                waits = rw (kept_order, kept_updates) w;
                keyed = done.keyed;
              }
        ]

    handle_update-Ordered :
        (symbol : Text) (b : Bitfinex D) (other : Text) (tag : Tag) (update : BitfinexTradeUpdate D)
        → IsKeyed b.pending_updates
        → Waits (at_symbol symbol b.pending_updates) (at_symbol symbol b.pending_order)
        → Ordered symbol
            (at_symbol symbol b.pending_order)
            (for_symbol symbol other (announced_id tag update))
            (handle_update b other tag update).0
            (handle_update b other tag update).1
    unfolding handle_update
    handle_update-Ordered symbol b other te update k =
        emit_ready-Ordered symbol other (update.trade_id ∷ []) b
          (enqueue_bitfinex_trade b other update.trade_id)
          (enqueue-Prepared b other update.trade_id k)
    handle_update-Ordered symbol b other tu update k =
        emit_ready-Ordered symbol other [] b (store_bitfinex_trade_update b other update)
          (store-Prepared b other update k)

    -- The messages about trades, one after the other, as `emitMessageTrades` takes them.
    unfoldable pub handle_updates :
        Bitfinex D → List (TradeMessage D) → Bitfinex D × List (TradeEvent D)
    handle_updates b [] = (b, [])
    handle_updates b (message ∷ messages) =
        let (b', events) = handle_update b message.symbol message.tag message.update in
        let (b'', later) = handle_updates b' messages in (b'', events ++ later)

    -- Whatever messages about trades of whatever symbols come: the trades of a symbol that are
    -- emitted, and behind them those that still wait, are in the order in which they were announced,
    -- those that waited before the first message ahead, none more often than it was announced; and
    -- the first one that still waits has no update yet, if that is so before the messages. The
    -- updates before the messages are kept under their own IDs.
    pub handle_updates-Ordered :
        (symbol : Text) (b : Bitfinex D) (messages : List (TradeMessage D))
        → IsKeyed b.pending_updates
        → Waits (at_symbol symbol b.pending_updates) (at_symbol symbol b.pending_order)
        → Ordered symbol
            (at_symbol symbol b.pending_order)
            (announced_for symbol messages)
            (handle_updates b messages).0
            (handle_updates b messages).1
    unfolding handle_updates
    handle_updates-Ordered symbol b [] k w = record {
      emitted = [];
      uids = refl;
      in_order = IsPartOf-kept (at_symbol symbol b.pending_order) [];
      waits = w;
      keyed = k;
    }
    handle_updates-Ordered symbol b (message ∷ messages) k w =
        let step = handle_update b message.symbol message.tag message.update in
        let first = handle_update-Ordered symbol b message.symbol message.tag message.update k w in
        let rest = handle_updates-Ordered symbol step.0 messages first.keyed first.waits in
        let order = at_symbol symbol b.pending_order in
        let announced =
          for_symbol symbol message.symbol (announced_id message.tag message.update) in
        record {
          emitted = first.emitted ++ rest.emitted;
          uids =
              uids_of-append symbol step.1 (handle_updates step.0 messages).1
              ∙ both_ends first.uids rest.uids
              ∙ sym (map-append format_int first.emitted rest.emitted);
          in_order =
              ordered_on first.emitted rest.emitted _ _ order announced _ first.in_order
                rest.in_order;
          waits = rest.waits;
          keyed = rest.keyed;
        }
