-- ===== src/Exchanges/Bitfinex/Pending.antt =====
-- emitReadyBitfinexTrades: it takes trades off the head of the order while their updates are there.
use go_quant_tick.Common.{
  ◌≡◌, Bool, false, Option, none, some, List, [], ◌∷◌, ◌++◌, Text, Word, text_Eq, nat_Eq, text_eq,
  text_eq_iff, nat_eq, nat_eq_iff, Dict, lookup, insert, delete, lookup-insert, lookup-delete,
  if◌then◌else◌, format_int, map, All, arith, refl, Bool-cases, Option-cases, inl, inr, ◌∙◌, sym,
  ap, subst,
}
use go_quant_tick.Trade.{DecimalOps, TradeEvent, new_trade_event}
use go_quant_tick.Exchanges.Bitfinex.{
  Bitfinex, BitfinexTradeUpdate, at_symbol, ensure_entry, take_announced,
  bitfinex_trade_is_sequential, new_bitfinex_trade_event, emit_ready,
}

module _ {V : Type 0} where
  pub at_symbol-insert :
      (symbol other : Text) (values : List V) (m : Dict Text (List V))
      → at_symbol other (insert symbol values m)
        ≡ (if text_eq symbol other then values else at_symbol other m)
  unfolding at_symbol
  at_symbol-insert symbol other values m = elim (Bool-cases (text_eq symbol other)) [
    | inl same ↦ rw (lookup-insert symbol other values m, same, at_symbol) refl
    | inr apart ↦ rw (lookup-insert symbol other values m, apart, at_symbol) refl
  ]

  pub at_symbol-insert_self :
      (symbol : Text) (values : List V) (m : Dict Text (List V))
      → at_symbol symbol (insert symbol values m) ≡ values
  at_symbol-insert_self symbol values m =
      at_symbol-insert symbol symbol values m ∙ rw ((text_eq_iff symbol symbol).1 refl) refl

  pub at_symbol-insert_other :
      (symbol other : Text) (values : List V) (m : Dict Text (List V))
      → text_eq symbol other ≡ false
      → at_symbol other (insert symbol values m) ≡ at_symbol other m
  at_symbol-insert_other symbol other values m apart =
      at_symbol-insert symbol other values m ∙ rw apart refl

  -- A missing entry reads as an empty one.
  at_symbol-insert_empty :
      (symbol other : Text) (m : Dict Text (List V))
      → lookup symbol m ≡ none
      → at_symbol other (insert symbol [] m) ≡ at_symbol other m
  unfolding at_symbol
  at_symbol-insert_empty symbol other m missing = elim (Bool-cases (text_eq symbol other)) [
    | inr apart ↦ rw (lookup-insert symbol other [] m, apart, at_symbol) refl
    | inl same ↦
        let missing' : lookup other m ≡ none =
          ap (λ (s : Text). lookup s m) (sym ((text_eq_iff symbol other).0 same)) ∙ missing in
        rw (lookup-insert symbol other [] m, same, missing', at_symbol) refl
  ]

  pub at_symbol-ensure_entry :
      (symbol other : Text) (m : Dict Text (List V))
      → at_symbol other (ensure_entry symbol m) ≡ at_symbol other m
  unfolding ensure_entry
  at_symbol-ensure_entry symbol other m = elim (Option-cases (lookup symbol m)) [
    | inr (values, e) ↦ rw (e, ensure_entry) refl
    | inl e ↦ rw (e, ensure_entry) (at_symbol-insert_empty symbol other m e)
  ]

both_eq {ℓ} : {A : Type ℓ} {a b : A} {xs ys : List A} → a ≡ b → xs ≡ ys → a ∷ xs ≡ b ∷ ys
both_eq p q = λ i. p i ∷ q i

module _ {D : Type 0} where
  -- An update is kept under its own ID.
  pub record IsKeyed (updates : Dict Text (Dict Word (BitfinexTradeUpdate D))) : Type 0 where
    pub keyed :
        (symbol : Text) (trade_id : Word) (update : BitfinexTradeUpdate D)
        → lookup trade_id (at_symbol symbol updates) ≡ some update
        → update.trade_id ≡ trade_id

  IsKeyed-insert :
      (symbol : Text) (updates : Dict Text (Dict Word (BitfinexTradeUpdate D)))
      (values : Dict Word (BitfinexTradeUpdate D))
      → ((trade_id : Word) (update : BitfinexTradeUpdate D)
          → lookup trade_id values ≡ some update
          → update.trade_id ≡ trade_id)
      → IsKeyed updates
      → IsKeyed (insert symbol values updates)
  IsKeyed-insert symbol updates values h k = record {
    keyed = λ other trade_id update found. elim (Bool-cases (text_eq symbol other)) [
      | inl same ↦
          h trade_id update (rw (at_symbol-insert symbol other values updates, same) at found)
      | inr apart ↦
          k.keyed other trade_id update
            (rw (at_symbol-insert symbol other values updates, apart) at found)
    ];
  }

  pub IsKeyed-delete :
      (symbol : Text) (taken : Word) (updates : Dict Text (Dict Word (BitfinexTradeUpdate D)))
      → IsKeyed updates
      → IsKeyed (insert symbol (delete taken (at_symbol symbol updates)) updates)
  IsKeyed-delete symbol taken updates k =
      IsKeyed-insert symbol updates (delete taken (at_symbol symbol updates))
        (λ trade_id update found. elim (Bool-cases (nat_eq taken trade_id)) [
          | inl same ↦
              cc (rw (lookup-delete taken trade_id (at_symbol symbol updates), same) at found)
          | inr apart ↦
              k.keyed symbol trade_id update
                (rw (lookup-delete taken trade_id (at_symbol symbol updates), apart) at found)
        ])
        k

  pub IsKeyed-store :
      (symbol : Text) (stored : BitfinexTradeUpdate D)
      (updates : Dict Text (Dict Word (BitfinexTradeUpdate D)))
      → IsKeyed updates
      → IsKeyed (insert symbol (insert stored.trade_id stored (at_symbol symbol updates)) updates)
  IsKeyed-store symbol stored updates k =
      IsKeyed-insert symbol updates (insert stored.trade_id stored (at_symbol symbol updates))
        (λ trade_id update found. elim (Bool-cases (nat_eq stored.trade_id trade_id)) [
          | inl same ↦
              let is_stored : stored ≡ update = cc (
                rw (lookup-insert stored.trade_id trade_id stored (at_symbol symbol updates), same)
                  at found) in
              rw (← is_stored) ((nat_eq_iff stored.trade_id trade_id).0 same)
          | inr apart ↦ k.keyed symbol trade_id update (
              rw (lookup-insert stored.trade_id trade_id stored (at_symbol symbol updates), apart)
                at found)
        ])
        k

  pub IsKeyed-ensure_entry :
      (symbol : Text) (updates : Dict Text (Dict Word (BitfinexTradeUpdate D)))
      → IsKeyed updates
      → IsKeyed (ensure_entry symbol updates)
  IsKeyed-ensure_entry symbol updates k = record {
    keyed = λ other trade_id update found.
        k.keyed other trade_id update (rw (at_symbol-ensure_entry symbol other updates) at found);
  }

  -- The first trade of the order still waits for its update.
  abbrev pub Waits : Dict Word (BitfinexTradeUpdate D) → List Word → Type 0
  Waits updates [] = Unit
  Waits updates (trade_id ∷ order) = lookup trade_id updates ≡ none

  -- `emit_ready` splits the order: the trades before the first one that waits become events.
  pub record Emission (symbol : Text) (b : Bitfinex D) (order : List Word)
      (after : Bitfinex D × List Word × List (TradeEvent D)) : Type 0 where
    pub emitted : List Word
    pub split : emitted ++ after.1 ≡ order
    pub uids : map (λ (event : TradeEvent D). event.uid) after.2 ≡ map format_int emitted
    pub of_symbol : All (λ event. event.symbol ≡ symbol) after.2
    pub waits : Waits (at_symbol symbol after.0.pending_updates) after.1
    pub keyed : IsKeyed after.0.pending_updates
    pub other :
        (other : Text)
        → text_eq symbol other ≡ false
        → at_symbol other after.0.pending_updates ≡ at_symbol other b.pending_updates
    pub orders : after.0.pending_order ≡ b.pending_order

  is_sequential-pending :
      (b : Bitfinex D) (symbol : Text) (previous : Option Word) (trade_id : Word)
      → ((bitfinex_trade_is_sequential b symbol previous trade_id).0.pending_updates
          ≡ b.pending_updates)
        × ((bitfinex_trade_is_sequential b symbol previous trade_id).0.pending_order
            ≡ b.pending_order)
  unfolding bitfinex_trade_is_sequential
  is_sequential-pending b symbol previous trade_id = ground arith

  module _ ⦃ops : DecimalOps D⦄ where
    event_uid :
        (symbol : Text) (update : BitfinexTradeUpdate D) (is_sequential : Bool)
        → ((new_bitfinex_trade_event symbol update is_sequential).uid ≡ format_int update.trade_id)
          × ((new_bitfinex_trade_event symbol update is_sequential).symbol ≡ symbol)
    unfolding new_bitfinex_trade_event new_trade_event
    event_uid symbol update is_sequential = (refl, refl)

    pub emit_ready-Emission :
        (b : Bitfinex D) (symbol : Text) (order : List Word)
        → IsKeyed b.pending_updates
        → Emission symbol b order (emit_ready b symbol order)
    unfolding emit_ready
    emit_ready-Emission b symbol [] k = record {
      emitted = [];
      split = refl;
      uids = refl;
      of_symbol = tt;
      waits = tt;
      keyed = k;
      other = λ other apart. refl;
      orders = refl;
    }
    emit_ready-Emission b symbol (trade_id ∷ order) k =
        elim (Option-cases (lookup trade_id (at_symbol symbol b.pending_updates))) [
          | inl e ↦
              rw (e, emit_ready)
                (record {
                  emitted = [];
                  split = refl;
                  uids = refl;
                  of_symbol = tt;
                  waits = e;
                  keyed = k;
                  other = λ other apart. refl;
                  orders = refl;
                })
          | inr (update, e) ↦
              let taken = take_announced b symbol trade_id in
              let next =
                bitfinex_trade_is_sequential taken symbol (lookup symbol b.last_ids) trade_id in
              let same = is_sequential-pending taken symbol (lookup symbol b.last_ids) trade_id in
              let still : IsKeyed next.0.pending_updates =
                subst IsKeyed (sym same.0)
                  (unfold take_announced in IsKeyed-delete symbol trade_id b.pending_updates k) in
              let rest = emit_ready-Emission next.0 symbol order still in
              let event = event_uid symbol update next.1 in
              rw (e, emit_ready)
                (record {
                  emitted = trade_id ∷ rest.emitted;
                  split = ap (λ (o : List Word). trade_id ∷ o) rest.split;
                  uids =
                      both_eq (event.0 ∙ ap format_int (k.keyed symbol trade_id update e))
                        rest.uids;
                  of_symbol = (event.1, rest.of_symbol);
                  waits = rest.waits;
                  keyed = rest.keyed;
                  other = λ other apart.
                      rest.other other apart
                      ∙ ap (at_symbol other) same.0
                      ∙ unfold take_announced in
                        at_symbol-insert_other symbol other _ b.pending_updates apart;
                  orders = rest.orders ∙ same.1;
                })
        ]
