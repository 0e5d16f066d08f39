-- ===== src/Merge/Insert/Uids.antt =====
-- The UIDs of a bucket, and the sets that tradeUIDSet and canonicalWebSocketDataTrades of
-- quanttick/websocket_data_merge.go keep of them.
use go_quant_tick.Common.{
  ◌≡◌, Bool, true, false, ◌||◌, ◌&&◌, not, none, some, List, [], ◌∷◌, ◌++◌, Text, text_eq, text_Eq,
  Dict, lookup, insert, lookup-insert, insert_by, insert_all, stable_sort, arith, refl, Bool-cases,
  inl, inr,
}
use go_quant_tick.Trade.{TradeEvent}
use go_quant_tick.Stream.{UidSet}
use go_quant_tick.Merge.Insert.{add_uids, trade_uid_set}

abbrev pub is_known {ℓ} : {V : Type ℓ} → Text → Dict Text V → Bool
is_known uid seen = elim (lookup uid seen) [ none ↦ false | some _ ↦ true ]

module _ {D : Type 0} where
  -- a trade of the list has this UID, and it is not the empty one
  unfoldable pub has_uid : Text → List (TradeEvent D) → Bool
  has_uid uid [] = false
  has_uid uid (t ∷ ts) = (not (text_eq t.uid []) && text_eq t.uid uid) || has_uid uid ts

  -- The set has exactly the UIDs of the trades.
  pub record Knows {ℓ} {V : Type ℓ} (seen : Dict Text V) (trades : List (TradeEvent D))
      : Type ℓ where
    pub at_uid : (uid : Text) → is_known uid seen ≡ has_uid uid trades

  pub has_uid-append :
      (uid : Text) (xs ys : List (TradeEvent D))
      → has_uid uid (xs ++ ys) ≡ has_uid uid xs || has_uid uid ys
  unfolding has_uid
  has_uid-append uid [] ys = refl
  has_uid-append uid (x ∷ xs) ys = ground (arith, has_uid-append uid xs ys)

  module _ (less : TradeEvent D → TradeEvent D → Bool) where
    pub has_uid-insert_by :
        (uid : Text) (x : TradeEvent D) (ys : List (TradeEvent D))
        → has_uid uid (insert_by less x ys) ≡ has_uid uid (x ∷ ys)
    unfolding has_uid insert_by
    has_uid-insert_by uid x [] = refl
    has_uid-insert_by uid x (y ∷ ys) = ground (arith, has_uid-insert_by uid x ys)

    has_uid-insert_all :
        (uid : Text) (sorted xs : List (TradeEvent D))
        → has_uid uid (insert_all less sorted xs) ≡ has_uid uid sorted || has_uid uid xs
    unfolding has_uid insert_all
    has_uid-insert_all uid sorted [] = ground arith
    has_uid-insert_all uid sorted (x ∷ xs) =
        ground (
          arith,
          has_uid-insert_all uid (insert_by less x sorted) xs,
          has_uid-insert_by uid x sorted,
        )

    pub has_uid-stable_sort :
        (uid : Text) (xs : List (TradeEvent D)) → has_uid uid (stable_sort less xs) ≡ has_uid uid xs
    unfolding stable_sort has_uid
    has_uid-stable_sort uid xs = has_uid-insert_all uid [] xs

  is_known-add_uids :
      (uid : Text) (seen : UidSet) (ts : List (TradeEvent D))
      → is_known uid (add_uids seen ts) ≡ is_known uid seen || has_uid uid ts
  unfolding add_uids has_uid
  is_known-add_uids uid seen [] = ground arith
  is_known-add_uids uid seen (t ∷ ts) = elim (Bool-cases (text_eq t.uid [])) [
    | inl e ↦ rw e (ground (arith, is_known-add_uids uid seen ts))
    | inr e ↦ rw e (
        ground
          (arith, is_known-add_uids uid (insert t.uid tt seen) ts, lookup-insert t.uid uid tt seen))
  ]

  pub trade_uid_set-Knows : (ts : List (TradeEvent D)) → Knows (trade_uid_set ts) ts
  unfolding trade_uid_set
  trade_uid_set-Knows ts = record { at_uid = λ uid. unfold lookup in is_known-add_uids uid [] ts }

  -- A new UID enters the set with its trade.
  pub Knows-insert {ℓ} :
      {V : Type ℓ} (seen : Dict Text V) (v : V) (t : TradeEvent D) (ts us : List (TradeEvent D))
      → Knows seen ts
      → text_eq t.uid [] ≡ false
      → ((uid : Text) → has_uid uid us ≡ has_uid uid (t ∷ ts))
      → Knows (insert t.uid v seen) us
  unfolding has_uid
  Knows-insert seen v t ts us k e h = record {
    at_uid = λ uid. ground (arith, lookup-insert t.uid uid v seen, k.at_uid uid, h uid);
  }

  -- A trade with no UID leaves the set as it is.
  pub Knows-blank {ℓ} :
      {V : Type ℓ} (seen : Dict Text V) (t : TradeEvent D) (ts us : List (TradeEvent D))
      → Knows seen ts
      → text_eq t.uid [] ≡ true
      → ((uid : Text) → has_uid uid us ≡ has_uid uid (t ∷ ts))
      → Knows seen us
  unfolding has_uid
  Knows-blank seen t ts us k e h = record { at_uid = λ uid. ground (arith, k.at_uid uid, h uid) }
