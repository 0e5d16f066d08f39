-- ===== src/Recovery/Seen.antt =====
-- quanttick/exchanges/seen_trades.go and emitSeenTrade of quanttick/exchanges/recovery.go: the last
-- trades of an adapter are remembered, so that a trade is emitted once.
use go_quant_tick.Common.{
  ℕ, ◌≡◌, ◌≤◌, Bool, true, false, ◌||◌, ◌&&◌, not, Option, none, some, List, [], ◌∷◌, ◌++◌, Text,
  text_eq, text_eq_iff, text_Eq, bytes, ltb, if◌then◌else◌, Dict, lookup, insert, delete,
  lookup-insert, lookup-delete, arith, refl, Bool-cases, Option-cases, inl, inr, ◌⊎◌, length, ◌∙◌,
}
use go_quant_tick.Trade.{TradeEvent}

pub record SeenTradeIds : Type 0 where
  pub limit : ℕ
  pub seen : Dict Text (Unit {0})
  pub order : List Text

unfoldable pub new_seen_trade_ids : ℕ → SeenTradeIds
new_seen_trade_ids limit = record { limit = limit; seen = []; order = [] }

unfoldable pub seen_key : Text → Text → Text
seen_key symbol uid = symbol ++ (bytes "|" ++ uid)

-- the loop that drops the oldest keys; the list gets shorter in each round
unfoldable pub evict : ℕ → Dict Text (Unit {0}) → List Text → Dict Text (Unit {0}) × List Text
evict limit seen [] = (seen, [])
evict limit seen (oldest ∷ order) =
    let rest = evict limit (delete oldest seen) order in
    if ltb 0 limit && ltb limit (length (oldest ∷ order)) then rest else (seen, oldest ∷ order)

unfoldable pub add_key : SeenTradeIds → Text → SeenTradeIds × Bool
add_key s key = elim (lookup key s.seen) [
  | some _ ↦ (s, false)
  | none ↦
      let (seen, order) = evict s.limit (insert key tt s.seen) (s.order ++ key ∷ []) in
      (record s { seen = seen; order = order }, true)
]

-- `Add`
unfoldable pub add_seen : SeenTradeIds → Text → Text → SeenTradeIds × Bool
add_seen s symbol uid = add_key s (seen_key symbol uid)

-- `emitSeenTrade`: what is sent, the set, and the last UIDs by symbol. `delivered` says whether the
-- channel takes the trade before the context ends.
unfoldable pub emit_seen_trade :
    {D : Type 0}
    → Bool
    → SeenTradeIds × Dict Text Text
    → TradeEvent D
    → (SeenTradeIds × Dict Text Text) × Option (TradeEvent D)
emit_seen_trade delivered (s, last_uids) trade =
    let (s', fresh) = add_seen s trade.symbol trade.uid in
    if not fresh
    then ((s', last_uids), none)
    else if not delivered
    then ((s', last_uids), none)
    else ((s', insert trade.symbol trade.uid last_uids), some trade)

abbrev pub is_seen : Text → SeenTradeIds → Bool
is_seen key s = elim (lookup key s.seen) [ none ↦ false | some _ ↦ true ]

abbrev pub occurs : Text → List Text → Bool
occurs key [] = false
occurs key (k ∷ ks) = text_eq k key || occurs key ks

abbrev pub AllApart : List Text → Type 0
AllApart [] = Unit
AllApart (k ∷ ks) = (occurs k ks ≡ false) × AllApart ks

-- The set has the keys of the list, each once, and no more than the limit, if there is one.
pub record IsBounded (s : SeenTradeIds) : Type 0 where
  pub apart : AllApart s.order
  pub agrees : (key : Text) → is_seen key s ≡ occurs key s.order
  pub bounded : (s.limit ≡ 0) ⊎ (length s.order ≤ s.limit)

occurs-append :
    (key : Text) (xs ys : List Text) → occurs key (xs ++ ys) ≡ occurs key xs || occurs key ys
occurs-append key [] ys = refl
occurs-append key (x ∷ xs) ys = ground (arith, occurs-append key xs ys)

AllApart-append :
    (xs : List Text) (key : Text) → occurs key xs ≡ false → AllApart xs → AllApart (xs ++ key ∷ [])
AllApart-append [] key h a = (refl, tt)
AllApart-append (x ∷ xs) key h a = (
  ground (arith, occurs-append x xs (key ∷ []), a.0, text_eq_iff x key, text_eq_iff key x),
  AllApart-append xs key (ground arith) a.1,
)

within_limit : (limit n : ℕ) → (ltb 0 limit && ltb limit n) ≡ false → (limit ≡ 0) ⊎ (n ≤ limit)
within_limit limit n h = elim (Bool-cases (ltb 0 limit)) [
  | inl some_limit ↦ inr (ground arith)
  | inr no_limit ↦ inl (ground arith)
]

-- The loop keeps list and set together, and stops within the limit.
evict-IsBounded :
    (limit : ℕ) (seen : Dict Text (Unit {0})) (order : List Text)
    → AllApart order
    → ((key : Text)
        → is_seen key (record { limit = limit; seen = seen; order = order }) ≡ occurs key order)
    → IsBounded (record {
      limit = limit;
      seen = (evict limit seen order).0;
      order = (evict limit seen order).1;
    })
unfolding evict
evict-IsBounded limit seen [] a h = record { apart = tt; agrees = h; bounded = inr (omega arith) }
evict-IsBounded limit seen (oldest ∷ order) a h =
    elim (Bool-cases (ltb 0 limit && ltb limit (length (oldest ∷ order)))) [
      | inl full ↦ rw full (
          evict-IsBounded limit (delete oldest seen) order a.1 (λ key.
            ground (arith, lookup-delete oldest key seen, h key, a.0, text_eq_iff oldest key)))
      | inr room ↦ rw room (record {
        apart = a;
        agrees = h;
        bounded = within_limit limit (length (oldest ∷ order)) room;
      })
    ]

add_key-IsBounded : (s : SeenTradeIds) (key : Text) → IsBounded s → IsBounded (add_key s key).0
unfolding add_key
add_key-IsBounded s key b = elim (Option-cases (lookup key s.seen)) [
  | inr (u, e) ↦ rw (e, add_key) b
  | inl e ↦
      rw (e, add_key)
        (evict-IsBounded s.limit (insert key tt s.seen) (s.order ++ key ∷ [])
          (AllApart-append s.order key (ground (arith, b.agrees key)) b.apart)
          (λ k. ground (
            arith,
            lookup-insert key k tt s.seen,
            occurs-append k s.order (key ∷ []),
            b.agrees k,
            text_eq_iff key k,
          )))
]

-- Where the set of seen trades has exactly the keys of its list, each once there, and no more than
-- the limit, if there is one, it is so after a trade is added.
pub add_seen-IsBounded :
    (s : SeenTradeIds) (symbol uid : Text) → IsBounded s → IsBounded (add_seen s symbol uid).0
unfolding add_seen
add_seen-IsBounded s symbol uid b = add_key-IsBounded s (seen_key symbol uid) b

-- The loop never drops the last key of the list.
evict_last :
    (limit : ℕ) (seen : Dict Text (Unit {0})) (order : List Text) (key : Text)
    → occurs key (evict limit seen (order ++ key ∷ [])).1 ≡ true
unfolding evict
evict_last limit seen [] key = elim (Bool-cases (ltb 0 limit && ltb limit 1)) [
  | inl full ↦ ground arith
  | inr room ↦ rw room (ground (arith, text_eq_iff key key))
]
evict_last limit seen (oldest ∷ order) key = ground (
  arith,
  evict_last limit (delete oldest seen) order key,
  occurs-append key order (key ∷ []),
  text_eq_iff key key,
)

add_key_known :
    (s : SeenTradeIds) (key : Text) (u : Unit {0})
    → lookup key s.seen ≡ some u
    → add_key s key ≡ (s, false)
unfolding add_key
add_key_known s key u e = rw (e, add_key) refl

-- A trade that was just added to such a set is not new, whatever the limit: `Add` returns false the
-- second time and changes nothing. The set has exactly the keys of its list, each once, within the
-- limit.
pub add_seen-add_seen :
    (s : SeenTradeIds) (symbol uid : Text)
    → IsBounded s
    → add_seen (add_seen s symbol uid).0 symbol uid ≡ ((add_seen s symbol uid).0, false)
unfolding add_seen add_key
add_seen-add_seen s symbol uid b =
    let key = seen_key symbol uid in
    let b' = add_key-IsBounded s key b in
    let k : is_seen key (add_key s key).0 ≡ true = elim (Option-cases (lookup key s.seen)) [
      | inr (u, e) ↦ rw (e, add_key) (ground arith)
      | inl e ↦
          b'.agrees key ∙ rw (e, add_key) (evict_last s.limit (insert key tt s.seen) s.order key)
    ] in
    elim (Option-cases (lookup key (add_key s key).0.seen)) [
      | inl e ↦ ground arith
      | inr (u, e) ↦ add_key_known (add_key s key).0 key u e
    ]

pub new_seen_trade_ids-IsBounded : (limit : ℕ) → IsBounded (new_seen_trade_ids limit)
unfolding new_seen_trade_ids lookup
new_seen_trade_ids-IsBounded limit = record {
  apart = tt;
  agrees = λ key. refl;
  bounded = inr (omega arith);
}
