-- ===== src/Merge/Insert/Replace.antt =====
-- The replacement of a trade by one with its UID, in insertWebSocketDataTrade of
-- quanttick/websocket_data_merge.go.
use go_quant_tick.Common.{
  ℕ, zero, suc, ◌≡◌, Bool, true, false, some, List, [], ◌∷◌, Text, text_eq_iff, text_Eq, arith, set,
  insert_by, insert_all, stable_sort, ◌∙◌, All,
}
use go_quant_tick.Trade.{TradeEvent}
use go_quant_tick.Merge.Insert.{index_of_uid}
use go_quant_tick.Merge.Insert.Uids.{has_uid, has_uid-insert_by}
use go_quant_tick.Merge.Insert.Unique.{Distinct, Distinct-insert_by, has_uid_blank}

module _ {D : Type 0} where
  -- The two lists share no UID but the empty one.
  abbrev Disjoint : List (TradeEvent D) → List (TradeEvent D) → Type 0
  Disjoint xs ys = (uid : Text) → has_uid uid xs ≡ true → has_uid uid ys ≡ false

  module _ (less : TradeEvent D → TradeEvent D → Bool) where
    Disjoint-apart :
        (x : TradeEvent D) (sorted xs : List (TradeEvent D))
        → Disjoint sorted (x ∷ xs)
        → has_uid x.uid sorted ≡ false
    unfolding has_uid
    Disjoint-apart x sorted xs d =
        ground (arith, d x.uid, has_uid_blank sorted x.uid, text_eq_iff x.uid x.uid)

    Disjoint-insert_by :
        (x : TradeEvent D) (sorted xs : List (TradeEvent D))
        → has_uid x.uid xs ≡ false
        → Disjoint sorted (x ∷ xs)
        → Disjoint (insert_by less x sorted) xs
    unfolding has_uid
    Disjoint-insert_by x sorted xs e d uid h =
        ground (arith, d uid, has_uid-insert_by less uid x sorted, text_eq_iff x.uid uid)

    Distinct-insert_all :
        (sorted xs : List (TradeEvent D))
        → Distinct sorted
        → Distinct xs
        → Disjoint sorted xs
        → Distinct (insert_all less sorted xs)
    unfolding insert_all
    Distinct-insert_all sorted [] d e a = d
    Distinct-insert_all sorted (x ∷ xs) d e a =
        Distinct-insert_all (insert_by less x sorted) xs
          (Distinct-insert_by less x sorted (Disjoint-apart x sorted xs a) d) e.1
          (Disjoint-insert_by x sorted xs e.0 a)

    pub Distinct-stable_sort :
        (xs : List (TradeEvent D)) → Distinct xs → Distinct (stable_sort less xs)
    unfolding stable_sort has_uid
    Distinct-stable_sort xs d = Distinct-insert_all [] xs tt d (λ uid h. cc)

  -- A trade put in the place of the first one with its UID changes no UID.
  pub has_uid-set :
      (uid : Text) (ts : List (TradeEvent D)) (i : ℕ) (t : TradeEvent D)
      → index_of_uid t.uid ts ≡ some i
      → has_uid uid (set ts i t) ≡ has_uid uid ts
  unfolding has_uid index_of_uid
  has_uid-set uid [] i t h = cc
  has_uid-set uid (x ∷ ts) zero t h = ground (arith, text_eq_iff x.uid t.uid)
  has_uid-set uid (x ∷ ts) (suc i) t h = ground (arith, has_uid-set uid ts i t)

  pub Distinct-set :
      (ts : List (TradeEvent D)) (i : ℕ) (t : TradeEvent D)
      → index_of_uid t.uid ts ≡ some i
      → Distinct ts
      → Distinct (set ts i t)
  unfolding has_uid index_of_uid
  Distinct-set [] i t h d = cc
  Distinct-set (x ∷ ts) zero t h d = (ground (arith, text_eq_iff x.uid t.uid), d.1)
  Distinct-set (x ∷ ts) (suc i) t h d =
      let e : index_of_uid t.uid ts ≡ some i = ground arith in
      (has_uid-set x.uid ts i t e ∙ d.0, Distinct-set ts i t e d.1)

  pub All-set {κ} :
      (P : TradeEvent D → Type κ) (ts : List (TradeEvent D)) (i : ℕ) (t : TradeEvent D)
      → P t
      → All P ts
      → All P (set ts i t)
  All-set P [] i t p ps = tt
  All-set P (x ∷ ts) zero t p ps = (p, ps.1)
  All-set P (x ∷ ts) (suc i) t p ps = (ps.0, All-set P ts i t p ps.1)
