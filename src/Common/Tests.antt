-- ===== src/Common/Tests.antt =====
-- Boolean tests on the native numbers, the conditional, the equality interface, and Go's pair of a
-- value and an error.
use Prim.Native.Nat.{ℕ, ◌≤◌, ◌<◌, compare, Ordering}
use mathlib.Core.Path.{◌≡◌, refl}
use mathlib.Core.Logic.{◌↔◌, ◌⊎◌, inl, inr}
use mathlib.Core.Bool.{Bool, true, false}
use mathlib.Core.Option.{Option, none, some}
use native.Mathlib.Omega.{arith}

abbrev pub ltb : ℕ → ℕ → Bool
ltb a b = elim (compare a b) [ Ordering.lt ↦ true | _ ↦ false ]

abbrev pub leb : ℕ → ℕ → Bool
leb a b = elim (compare a b) [ Ordering.gt ↦ false | _ ↦ true ]

abbrev pub nat_eq : ℕ → ℕ → Bool
nat_eq a b = elim (compare a b) [ Ordering.eq ↦ true | _ ↦ false ]

infix 1 if◌then◌else◌
abbrev pub if◌then◌else◌ {ℓ} : {A : Type ℓ} → Bool → A → A → A
if true then x else y = x
if false then x else y = y

pub ltb→lt : (a b : ℕ) → ltb a b ≡ true → a < b
ltb→lt a b h = ground arith

pub lt→ltb : (a b : ℕ) → a < b → ltb a b ≡ true
lt→ltb a b h = ground arith

pub leb→le : (a b : ℕ) → leb a b ≡ true → a ≤ b
leb→le a b h = ground arith

pub nat_eq_iff : (a b : ℕ) → (nat_eq a b ≡ true) ↔ (a ≡ b)
nat_eq_iff a b = ground arith

pub Bool-cases : (b : Bool) → (b ≡ true) ⊎ (b ≡ false)
Bool-cases true = inl refl
Bool-cases false = inr refl

pub Option-cases {ℓ} : {A : Type ℓ} (o : Option A) → (o ≡ none) ⊎ ((a : A) × (o ≡ some a))
Option-cases none = inl refl
Option-cases (some a) = inr (a, refl)

-- The types whose values Go compares by `==`.
pub record Eq {ℓ} (Key : Type ℓ) : Type ℓ where
  pub equal : Key → Key → Bool
  pub equal_iff : (left right : Key) → (equal left right ≡ true) ↔ (left ≡ right)

infix 50 ◌==◌
abbrev pub ◌==◌ {ℓ} : {Key : Type ℓ} ⦃keys : Eq Key⦄ → Key → Key → Bool
◌==◌ ⦃keys⦄ left right = keys.equal left right

instance abbrev pub nat_Eq : Eq ℕ
nat_Eq = record { equal = nat_eq; equal_iff = nat_eq_iff }

pub eq_iff {ℓ} : {Key : Type ℓ} ⦃keys : Eq Key⦄ (x y : Key) → ((x == y) ≡ true) ↔ (x ≡ y)
eq_iff ⦃keys⦄ x y = keys.equal_iff x y

pub eq_self {ℓ} : {Key : Type ℓ} ⦃keys : Eq Key⦄ (x : Key) → (x == x) ≡ true
eq_self x = (eq_iff x x).1 refl

-- `(value, error)`: where the error is not nil the callers of the program drop the value.
pub data Result {ℓ κ} (E : Type ℓ) (A : Type κ) : Type (ℓ ⊔ κ) where
  ok : A → Result E A
  err : E → Result E A

pub Result-cases {ℓ κ} :
    {E : Type ℓ} {A : Type κ} (r : Result E A) → ((a : A) × (r ≡ ok a)) ⊎ ((e : E) × (r ≡ err e))
Result-cases (ok a) = inl (a, refl)
Result-cases (err e) = inr (e, refl)

infixl 5 ◌>>=◌
abbrev pub ◌>>=◌ {ℓ κ μ} :
    {E : Type ℓ} {A : Type κ} {B : Type μ} → Result E A → (A → Result E B) → Result E B
ok a >>= f = f a
err e >>= f = err e

-- A chain of two steps gives a value only where both do.
pub both_ok {ℓ κ μ} :
    {E : Type ℓ} {A : Type κ} {B : Type μ} (first : Result E A) (second : A → Result E B)
    {value : B}
    → (first >>= second) ≡ ok value
    → (between : A) × (first ≡ ok between) × (second between ≡ ok value)
both_ok (ok between) second h = (between, refl, h)
both_ok (err e) second h = cc
