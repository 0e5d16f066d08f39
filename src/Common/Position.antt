-- ===== src/Common/Position.antt =====
-- Insertion at the index that binary search finds, against insertion by the test.
use Prim.Native.Nat.{ℕ, zero, suc, ◌≤◌, ◌<◌}
use mathlib.Core.Path.{◌≡◌, refl, ap}
use mathlib.Core.Logic.{inl, inr}
use mathlib.Core.Bool.{Bool, true, false}
use mathlib.Core.Option.{none, some}
use mathlib.Core.List.{List, [], ◌∷◌, ◌++◌}
use native.Mathlib.Omega.{arith}
use go_quant_tick.Common.Tests.{Bool-cases}
use go_quant_tick.Common.Lists.{length, take, drop, All, get_elem?}
use go_quant_tick.Common.Sorting.{insert_by, Sorted, IsWeakOrder}
use go_quant_tick.Common.Search.{search, IsFirst, search-IsFirst}

module _ {ℓ} {A : Type ℓ} where
  -- `p` at the element with index `i`; out of range Go would panic, and `search` stays in range.
  abbrev pub test_at : (A → Bool) → List A → ℕ → Bool
  test_at p l i = elim (get_elem? l i) [ none ↦ false | some y ↦ p y ]

  -- append, copy and assignment: the element enters at the index
  abbrev pub insert_at : ℕ → A → List A → List A
  insert_at i x l = take i l ++ x ∷ drop i l

  module _ (less : A → A → Bool) (x : A) where
    insert_at_first :
        (r : ℕ) (l : List A)
        → IsFirst (length l) (test_at (less x) l) r
        → insert_at r x l ≡ insert_by less x l
    unfolding insert_by
    insert_at_first zero [] h = refl
    insert_at_first (suc r) [] h = absurd (omega (arith, h.bound))
    insert_at_first zero (y ∷ ys) h = rw (h.above 0 (omega arith) (omega arith)) refl
    insert_at_first (suc r) (y ∷ ys) h = rw (h.below 0 (omega arith)) (
        ap (◌∷◌ y) (
          insert_at_first r ys (record {
            bound = omega (arith, h.bound);
            below = λ k a. h.below (suc k) (omega arith);
            above = λ k a b. h.above (suc k) (omega arith) (omega arith);
          })))

    test_of_All :
        (y : A) (l : List A) (i : ℕ)
        → All (λ z. less x z ≡ true) l
        → i < length l
        → test_at (less x) l i ≡ true
    test_of_All y [] i h lt = absurd (omega arith)
    test_of_All y (z ∷ l) zero h lt = h.0
    test_of_All y (z ∷ l) (suc i) h lt = test_of_All y l i h.1 (omega arith)

    module _ {κ} {P : A → Type κ} (order : IsWeakOrder less P) where
      All-above :
          (y : A) (l : List A)
          → P x
          → P y
          → All P l
          → less x y ≡ true
          → All (λ z. less z y ≡ false) l
          → All (λ z. less x z ≡ true) l
      All-above y [] px py pl e h = tt
      All-above y (z ∷ l) px py pl e h = (
        elim (Bool-cases (less x z)) [
          | inl t ↦ t
          | inr f ↦ cc (order.trans x z y px pl.0 py f h.0, e)
        ],
        All-above y l px py pl.1 e h.1,
      )

      mono :
          (l : List A) (a b : ℕ)
          → P x
          → All P l
          → Sorted less l
          → a ≤ b
          → b < length l
          → test_at (less x) l a ≡ true
          → test_at (less x) l b ≡ true
      mono [] a b px pl s ab bl t = absurd (omega arith)
      mono (y ∷ l) zero zero px pl s ab bl t = t
      mono (y ∷ l) zero (suc b) px pl s ab bl t =
          test_of_All y l b (All-above y l px pl.0 pl.1 t s.0) (omega arith)
      mono (y ∷ l) (suc a) zero px pl s ab bl t = absurd (omega arith)
      mono (y ∷ l) (suc a) (suc b) px pl s ab bl t =
          mono l a b px pl.1 s.1 (omega arith) (omega arith) t

      pub insert_at-search :
          (l : List A)
          → P x
          → All P l
          → Sorted less l
          → insert_at (search (length l) (test_at (less x) l)) x l ≡ insert_by less x l
      insert_at-search l px pl s =
          insert_at_first _ l
            (search-IsFirst (length l) _ (λ a b ab bl t. mono l a b px pl s ab bl t))
