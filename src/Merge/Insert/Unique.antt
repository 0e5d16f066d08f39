-- ===== src/Merge/Insert/Unique.antt =====
-- The UIDs of what canonicalWebSocketDataTrades of quanttick/websocket_data_merge.go leaves.
use go_quant_tick.Common.{
  ℕ, ◌≡◌, Bool, true, false, List, [], ◌∷◌, ◌++◌, Text, text_eq, text_eq_iff, text_Eq, Dict, lookup,
  insert, arith, refl, sym, Bool-cases, Option-cases, inl, inr, stable_sort, stable_sort-append,
  insert_by, append_assoc, append-nil, length, ◌∙◌, subst, ap,
}
use go_quant_tick.Trade.{TradeEvent}
use go_quant_tick.Stream.{Stream, aggregated_trades}
use go_quant_tick.Merge.Less.{web_socket_data_trade_less}
use go_quant_tick.Merge.Insert.{keep_trade, keep_trades}
use go_quant_tick.Merge.Insert.Uids.{
  has_uid, Knows, has_uid-append, has_uid-insert_by, has_uid-stable_sort, Knows-insert, Knows-blank,
}
use go_quant_tick.Merge.Insert.Canonical.{
  keep_trade_known, keep_trade_new, keep_trade_blank, has_uid_behind,
}

module _ {D : Type 0} where
  -- No UID but the empty one stands twice.
  abbrev pub Distinct : List (TradeEvent D) → Type 0
  Distinct [] = Unit
  Distinct (t ∷ ts) = (has_uid t.uid ts ≡ false) × Distinct ts

  has_uid_apart :
      (x y : TradeEvent D) (ys : List (TradeEvent D))
      → has_uid x.uid (y ∷ ys) ≡ false
      → has_uid y.uid ys ≡ false
      → has_uid y.uid (x ∷ ys) ≡ false
  unfolding has_uid
  has_uid_apart x y ys h k = ground (
    arith,
    text_eq_iff x.uid y.uid,
    text_eq_iff y.uid x.uid,
    text_eq_iff x.uid [],
    text_eq_iff y.uid [],
  )

  pub Distinct-insert_by :
      (less : TradeEvent D → TradeEvent D → Bool) (x : TradeEvent D) (ys : List (TradeEvent D))
      → has_uid x.uid ys ≡ false
      → Distinct ys
      → Distinct (insert_by less x ys)
  unfolding insert_by
  Distinct-insert_by less x [] h d = (h, tt)
  Distinct-insert_by less x (y ∷ ys) h d = elim (Bool-cases (less x y)) [
    | inl e ↦ rw e (h, d)
    | inr e ↦ rw e (
      has_uid-insert_by less y.uid x ys ∙ has_uid_apart x y ys h d.0,
      Distinct-insert_by less x ys (unfold has_uid in ground arith) d.1,
    )
  ]

  Distinct-above :
      (ys : List (TradeEvent D)) (x : TradeEvent D) (xs : List (TradeEvent D))
      → Distinct (ys ++ x ∷ xs)
      → has_uid x.uid ys ≡ false
  unfolding has_uid
  Distinct-above [] x xs d = refl
  Distinct-above (y ∷ ys) x xs d = ground (
    arith,
    Distinct-above ys x xs d.1,
    has_uid-append y.uid ys (x ∷ xs),
    text_eq_iff x.uid y.uid,
    text_eq_iff y.uid x.uid,
    text_eq_iff x.uid [],
    text_eq_iff y.uid [],
  )

  pub has_uid_blank :
      (ts : List (TradeEvent D)) (uid : Text) → text_eq uid [] ≡ true → has_uid uid ts ≡ false
  unfolding has_uid
  has_uid_blank [] uid e = refl
  has_uid_blank (t ∷ ts) uid e =
      ground (
        arith,
        has_uid_blank ts uid,
        text_eq_iff t.uid uid,
        text_eq_iff uid [],
        text_eq_iff t.uid [],
      )

module _ {D : Type 0} (exchange : Text) (stream : Stream) where
  -- A list with distinct UIDs is kept whole.
  pub keep_trades_of_Distinct :
      (kept : List (TradeEvent D) × Dict Text ℕ) (xs : List (TradeEvent D))
      → Knows kept.1 kept.0
      → Distinct (kept.0 ++ xs)
      → (keep_trades stream kept xs).0 ≡ kept.0 ++ xs
  unfolding keep_trades
  keep_trades_of_Distinct kept [] k d = sym (append-nil kept.0)
  keep_trades_of_Distinct kept (x ∷ xs) k d =
      let e = sym (append_assoc kept.0 (x ∷ []) xs) in
      elim (Bool-cases (text_eq x.uid [])) [
        | inl b ↦
            ap (λ k. (keep_trades stream k xs).0) (keep_trade_blank exchange stream kept x b)
            ∙ (keep_trades_of_Distinct (kept.0 ++ x ∷ [], kept.1) xs
                  (Knows-blank kept.1 x kept.0 _ k b
                    (λ uid. has_uid_behind exchange stream uid kept.0 x))
                  (subst Distinct e d)
                ∙ sym e)
        | inr b ↦ elim (Option-cases (lookup x.uid kept.1)) [
          | inl h ↦
              ap (λ k. (keep_trades stream k xs).0) (keep_trade_new exchange stream kept x b h)
              ∙ (keep_trades_of_Distinct (kept.0 ++ x ∷ [], insert x.uid (length kept.0) kept.1) xs
                    (Knows-insert kept.1 (length kept.0) x kept.0 _ k b
                      (λ uid. has_uid_behind exchange stream uid kept.0 x))
                    (subst Distinct e d)
                  ∙ sym e)
          | inr (i, h) ↦ ground (arith, k.at_uid x.uid, Distinct-above kept.0 x xs d)
        ]
      ]

  module _ (first_wins : text_eq stream aggregated_trades ≡ false) where
    -- What the loop keeps is distinct when sorted, and the index map has exactly its UIDs.
    pub record IsApart (kept : List (TradeEvent D) × Dict Text ℕ) : Type 0 where
      pub apart : Distinct (stable_sort (web_socket_data_trade_less exchange stream) kept.0)
      pub known : Knows kept.1 kept.0

    Distinct-behind :
        (kept : List (TradeEvent D)) (t : TradeEvent D)
        → has_uid t.uid kept ≡ false
        → Distinct (stable_sort (web_socket_data_trade_less exchange stream) kept)
        → Distinct (stable_sort (web_socket_data_trade_less exchange stream) (kept ++ t ∷ []))
    Distinct-behind kept t h d =
        rw (stable_sort-append (web_socket_data_trade_less exchange stream) kept t) (
          Distinct-insert_by _ t _
            (has_uid-stable_sort (web_socket_data_trade_less exchange stream) t.uid kept ∙ h) d)

    keep_trade-IsApart :
        (kept : List (TradeEvent D) × Dict Text ℕ) (t : TradeEvent D)
        → IsApart kept
        → IsApart (keep_trade stream kept t)
    keep_trade-IsApart kept t k = elim (Bool-cases (text_eq t.uid [])) [
      | inl e ↦ rw (keep_trade_blank exchange stream kept t e) (record {
        apart = Distinct-behind kept.0 t (has_uid_blank kept.0 t.uid e) k.apart;
        known =
            Knows-blank kept.1 t kept.0 _ k.known e
              (λ uid. has_uid_behind exchange stream uid kept.0 t);
      })
      | inr e ↦ elim (Option-cases (lookup t.uid kept.1)) [
        | inl h ↦ rw (keep_trade_new exchange stream kept t e h) (record {
          apart = Distinct-behind kept.0 t (ground (arith, k.known.at_uid t.uid)) k.apart;
          known =
              Knows-insert kept.1 (length kept.0) t kept.0 _ k.known e
                (λ uid. has_uid_behind exchange stream uid kept.0 t);
        })
        | inr (i, h) ↦ rw (keep_trade_known exchange stream first_wins kept t i e h) k
      ]
    ]

    pub keep_trades-IsApart :
        (kept : List (TradeEvent D) × Dict Text ℕ) (ts : List (TradeEvent D))
        → IsApart kept
        → IsApart (keep_trades stream kept ts)
    unfolding keep_trades
    keep_trades-IsApart kept [] k = k
    keep_trades-IsApart kept (t ∷ ts) k =
        keep_trades-IsApart (keep_trade stream kept t) ts (keep_trade-IsApart kept t k)
