-- ===== src/Aggregator/Pending.antt =====
-- What is held for a key after a write.
use go_quant_tick.Common.{
  ◌≡◌, ◌≢◌, List, Text, text_Eq, refl, Bool-cases, inl, inr, Dict, insert, lookup-insert,
  lookup-insert_self, ◌==◌, eq_iff, if◌then◌else◌, arith,
}
use go_quant_tick.Aggregator.{pending}

module _ {ℓ} {A : Type ℓ} where
  pub pending-insert_self :
      (key : Text) (l : List A) (m : Dict Text (List A)) → pending key (insert key l m) ≡ l
  unfolding pending
  pending-insert_self key l m = rw (lookup-insert_self key l m, pending) refl

  pub pending-insert :
      (key j : Text) (l : List A) (m : Dict Text (List A))
      → pending j (insert key l m) ≡ (if key == j then l else pending j m)
  unfolding pending
  pending-insert key j l m = elim (Bool-cases (key == j)) [
    | inl e ↦ rw (lookup-insert key j l m, e, pending) refl
    | inr e ↦ rw (lookup-insert key j l m, e, pending) refl
  ]

  pub pending-insert_ne :
      (key j : Text) (l : List A) (m : Dict Text (List A))
      → key ≢ j
      → pending j (insert key l m) ≡ pending j m
  pending-insert_ne key j l m h = ground (arith, pending-insert key j l m, eq_iff key j)
