-- ===== src/Common/Sorting.antt =====
-- Stable sorting by a test, as sort.SliceStable documents it.
use mathlib.Core.Path.{◌≡◌, refl, sym, subst}
use mathlib.Core.Logic.{inl, inr}
use mathlib.Core.Bool.{Bool, true, false}
use mathlib.Core.List.{List, [], ◌∷◌, ◌++◌, append-nil, append_assoc}
use go_quant_tick.Common.Tests.{if◌then◌else◌, Bool-cases}
use go_quant_tick.Common.Lists.{All}

module _ {ℓ} {A : Type ℓ} (less : A → A → Bool) where
  -- behind all that are not above it
  unfoldable pub insert_by : A → List A → List A
  insert_by x [] = x ∷ []
  insert_by x (y ∷ ys) = let rest = insert_by x ys in if less x y then x ∷ y ∷ ys else y ∷ rest

  unfoldable pub insert_all : List A → List A → List A
  insert_all sorted [] = sorted
  insert_all sorted (x ∷ xs) = insert_all (insert_by x sorted) xs

  unfoldable pub stable_sort : List A → List A
  unfolding insert_all
  stable_sort xs = insert_all [] xs

  -- Nothing is above what stands behind it.
  abbrev pub Sorted : List A → Type 0
  Sorted [] = Unit
  Sorted (x ∷ xs) = All (λ y. less y x ≡ false) xs × Sorted xs

  -- `less` orders the values with `P`, some of which may stand level.
  pub record IsWeakOrder {κ} (P : A → Type κ) : Type (ℓ ⊔ κ) where
    pub asymm : (a b : A) → P a → P b → less a b ≡ true → less b a ≡ false
    pub trans :
        (a b c : A) → P a → P b → P c → less a b ≡ false → less b c ≡ false → less a c ≡ false

  insert_all-append :
      (sorted xs ys : List A) → insert_all sorted (xs ++ ys) ≡ insert_all (insert_all sorted xs) ys
  unfolding insert_all
  insert_all-append sorted [] ys = refl
  insert_all-append sorted (x ∷ xs) ys = insert_all-append (insert_by x sorted) xs ys

  pub stable_sort-append :
      (xs : List A) (x : A) → stable_sort (xs ++ x ∷ []) ≡ insert_by x (stable_sort xs)
  unfolding stable_sort
  stable_sort-append xs x = insert_all-append [] xs (x ∷ [])

  pub All-insert_by {κ} :
      (Q : A → Type κ) (x : A) (ys : List A) → Q x → All Q ys → All Q (insert_by x ys)
  unfolding insert_by
  All-insert_by Q x [] q h = (q, tt)
  All-insert_by Q x (y ∷ ys) q h = elim (Bool-cases (less x y)) [
    | inl e ↦ rw e (q, h)
    | inr e ↦ rw e (h.0, All-insert_by Q x ys q h.1)
  ]

  pub All-insert_all {κ} :
      (Q : A → Type κ) (sorted xs : List A) → All Q sorted → All Q xs → All Q (insert_all sorted xs)
  unfolding insert_all
  All-insert_all Q sorted [] q h = q
  All-insert_all Q sorted (x ∷ xs) q h =
      All-insert_all Q (insert_by x sorted) xs (All-insert_by Q x sorted h.0 q) h.1

  module _ {κ} {P : A → Type κ} (order : IsWeakOrder P) where
    behind :
        (x y : A) (ys : List A)
        → P x
        → P y
        → All P ys
        → less x y ≡ true
        → All (λ z. less z y ≡ false) ys
        → All (λ z. less z x ≡ false) ys
    behind x y [] px py ps e h = tt
    behind x y (z ∷ ys) px py ps e h =
        (order.trans z y x ps.0 py px h.0 (order.asymm x y px py e), behind x y ys px py ps.1 e h.1)

    pub insert_by-Sorted :
        (x : A) (ys : List A) → P x → All P ys → Sorted ys → Sorted (insert_by x ys)
    unfolding insert_by
    insert_by-Sorted x [] px ps s = (tt, tt)
    insert_by-Sorted x (y ∷ ys) px ps s = elim (Bool-cases (less x y)) [
      | inl e ↦ rw e ((order.asymm x y px ps.0 e, behind x y ys px ps.0 ps.1 e s.0), s)
      | inr e ↦ rw e (All-insert_by _ x ys e s.0, insert_by-Sorted x ys px ps.1 s.1)
    ]

    insert_all-Sorted :
        (sorted xs : List A)
        → All P sorted
        → All P xs
        → Sorted sorted
        → Sorted (insert_all sorted xs)
    unfolding insert_all
    insert_all-Sorted sorted [] ps qs s = s
    insert_all-Sorted sorted (x ∷ xs) ps qs s =
        insert_all-Sorted (insert_by x sorted) xs (All-insert_by P x sorted qs.0 ps) qs.1
          (insert_by-Sorted x sorted qs.0 ps s)

    pub stable_sort-Sorted : (xs : List A) → All P xs → Sorted (stable_sort xs)
    unfolding stable_sort
    stable_sort-Sorted xs ps = insert_all-Sorted [] xs tt ps tt

  -- A sorted list stays as it is.
  insert_by_last :
      (x : A) (ys : List A) → All (λ y. less x y ≡ false) ys → insert_by x ys ≡ ys ++ x ∷ []
  unfolding insert_by
  insert_by_last x [] h = refl
  insert_by_last x (y ∷ ys) h = rw (h.0, insert_by_last x ys h.1) refl

  Sorted-above :
      (ys : List A) (x : A) (xs : List A) → Sorted (ys ++ x ∷ xs) → All (λ y. less x y ≡ false) ys
  Sorted-above [] x xs s = tt
  Sorted-above (y ∷ ys) x xs s = (middle ys s.0, Sorted-above ys x xs s.1)
    where
      middle : (zs : List A) → All (λ z. less z y ≡ false) (zs ++ x ∷ xs) → less x y ≡ false
      middle [] h = h.0
      middle (z ∷ zs) h = middle zs h.1

  insert_all_of_Sorted :
      (sorted xs : List A) → Sorted (sorted ++ xs) → insert_all sorted xs ≡ sorted ++ xs
  unfolding insert_all
  insert_all_of_Sorted sorted [] s = sym (append-nil sorted)
  insert_all_of_Sorted sorted (x ∷ xs) s =
      let e : sorted ++ x ∷ xs ≡ (sorted ++ x ∷ []) ++ xs = sym (append_assoc sorted (x ∷ []) xs) in
      rw (insert_by_last x sorted (Sorted-above sorted x xs s), e)
        (insert_all_of_Sorted (sorted ++ x ∷ []) xs (subst Sorted e s))

  pub stable_sort_of_Sorted : (xs : List A) → Sorted xs → stable_sort xs ≡ xs
  unfolding stable_sort
  stable_sort_of_Sorted xs s = insert_all_of_Sorted [] xs s
