-- ===== src/Common/Maps.antt =====
-- Go's `map`: an association list with distinct keys. Where the program ranges over a map it
-- sorts the keys first, or the order does not matter.
use mathlib.Core.Path.{◌≡◌, refl}
use mathlib.Core.Logic.{inl, inr}
use mathlib.Core.Option.{Option, none, some}
use mathlib.Core.List.{List, [], ◌∷◌}
use native.Mathlib.Omega.{arith}
use go_quant_tick.Common.Tests.{Eq, ◌==◌, eq_iff, eq_self, Bool-cases, if◌then◌else◌}

abbrev pub Dict {ℓ κ} : Type ℓ → Type κ → Type (ℓ ⊔ κ)
Dict K V = List (K × V)

module _ {ℓ κ} {K : Type ℓ} {V : Type κ} ⦃e : Eq K⦄ where
  -- `value, ok := m[key]`
  unfoldable pub lookup : K → Dict K V → Option V
  lookup key [] = none
  lookup key ((first, value) ∷ rest) = if first == key then some value else lookup key rest

  -- `m[key] = value`, in the place of the entry that is there
  unfoldable pub insert : K → V → Dict K V → Dict K V
  insert key value [] = (key, value) ∷ []
  insert key value ((first, old) ∷ rest) =
      let written = insert key value rest in
      if first == key then (key, value) ∷ rest else (first, old) ∷ written

  -- `delete(m, key)`
  unfoldable pub delete : K → Dict K V → Dict K V
  delete key [] = []
  delete key ((first, value) ∷ rest) =
      let left = delete key rest in if first == key then left else (first, value) ∷ left

  pub lookup-insert :
      (key other : K) (value : V) (m : Dict K V)
      → lookup other (insert key value m) ≡ (if key == other then some value else lookup other m)
  unfolding lookup insert
  lookup-insert key other value [] = refl
  lookup-insert key other value ((first, old) ∷ rest) = ground (
    arith,
    lookup-insert key other value rest,
    eq_iff first key,
    eq_iff first other,
    eq_iff key other,
  )

  pub lookup-delete :
      (k j : K) (m : Dict K V) → lookup j (delete k m) ≡ (if k == j then none else lookup j m)
  unfolding lookup delete
  lookup-delete k j [] = ground arith
  lookup-delete k j ((i, w) ∷ m) =
      ground (arith, eq_iff k j, eq_iff i k, eq_iff i j, lookup-delete k j m)

  pub lookup-insert_self : (k : K) (v : V) (m : Dict K V) → lookup k (insert k v m) ≡ some v
  lookup-insert_self k v m = simp (lookup-insert, eq_self)

module _ {ℓ κ} {K : Type ℓ} {V : Type κ} ⦃e : Eq K⦄ where
  pub insert-insert : (k : K) (v w : V) (m : Dict K V) → insert k w (insert k v m) ≡ insert k w m
  unfolding insert
  insert-insert k v w [] = rw (eq_self k) refl
  insert-insert k v w ((j, x) ∷ m) = ground (arith, eq_self k, insert-insert k v w m)

-- `P` holds of every entry.
pub record Everywhere {ℓ κ μ} {K : Type ℓ} {V : Type κ} ⦃e : Eq K⦄ (P : K → V → Type μ)
    (m : Dict K V) : Type (ℓ ⊔ κ ⊔ μ) where
  pub at_key : (k : K) (v : V) → lookup k m ≡ some v → P k v

module _ {ℓ κ μ} {K : Type ℓ} {V : Type κ} ⦃e : Eq K⦄ (P : K → V → Type μ) where
  pub Everywhere-empty : Everywhere P []
  unfolding lookup
  Everywhere-empty = record { at_key = λ k v h. cc }

  pub Everywhere-insert :
      (k : K) (v : V) (m : Dict K V) → P k v → Everywhere P m → Everywhere P (insert k v m)
  Everywhere-insert k v m p a = record {
    at_key = λ j w h. elim (Bool-cases (k == j)) [
      | inl same ↦
          let same_key : k ≡ j = (eq_iff k j).0 same in
          let same_value : v ≡ w = cc (lookup-insert k j v m, same, h) in
          rw (← same_key, ← same_value) p
      | inr other ↦ a.at_key j w (rw (lookup-insert k j v m, other) at h)
    ];
  }

  pub Everywhere-delete : (k : K) (m : Dict K V) → Everywhere P m → Everywhere P (delete k m)
  Everywhere-delete k m a = record {
    at_key = λ j w h. elim (Bool-cases (k == j)) [
      | inl same ↦ cc (lookup-delete k j m, same, h)
      | inr other ↦ a.at_key j w (rw (lookup-delete k j m, other) at h)
    ];
  }

pub ruleset dict_laws = (lookup-insert, lookup-delete, lookup-insert_self)
