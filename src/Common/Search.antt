-- ===== src/Common/Search.antt =====
-- sort.Search: binary search for the first index at which a test passes.
use Prim.Native.Nat.{ℕ, zero, suc, ◌+◌, ◌-◌, ◌/◌, ◌≤◌, ◌<◌}
use mathlib.Core.Path.{◌≡◌}
use mathlib.Core.Logic.{inl, inr}
use mathlib.Core.Bool.{Bool, true, false}
use native.Mathlib.Omega.{arith}
use go_quant_tick.Common.Tests.{ltb, if◌then◌else◌, Bool-cases}

-- `n` rounds are enough for a range of `n` indices: each makes it shorter.
unfoldable pub search_loop : ℕ → (ℕ → Bool) → ℕ → ℕ → ℕ
search_loop zero f i j = i
search_loop (suc fuel) f i j =
    let h = (i + j) / 2 in
    let rest = search_loop fuel f (if f h then i else h + 1) (if f h then h else j) in
    if ltb i j then rest else i

unfoldable pub search : ℕ → (ℕ → Bool) → ℕ
unfolding search_loop
search n f = search_loop n f 0 n

-- `r` is the first index below `n` at which `f` passes, or `n`.
pub record IsFirst (n : ℕ) (f : ℕ → Bool) (r : ℕ) : Type 0 where
  pub bound : r ≤ n
  pub below : (k : ℕ) → k < r → f k ≡ false
  pub above : (k : ℕ) → r ≤ k → k < n → f k ≡ true

module _ (n : ℕ) (f : ℕ → Bool) (mono : (a b : ℕ) → a ≤ b → b < n → f a ≡ true → f b ≡ true) where
  fails : (a b : ℕ) → b ≤ a → a < n → f a ≡ false → f b ≡ false
  fails a b h k e = elim (Bool-cases (f b)) [ inl p ↦ cc (mono b a h k p, e) | inr q ↦ q ]

  search_loop-IsFirst :
      (fuel i j : ℕ)
      → i ≤ j
      → j ≤ n
      → j - i ≤ fuel
      → ((k : ℕ) → k < i → f k ≡ false)
      → ((k : ℕ) → j ≤ k → k < n → f k ≡ true)
      → IsFirst n f (search_loop fuel f i j)
  unfolding search_loop
  search_loop-IsFirst zero i j ij jn d lo hi = record {
    bound = omega arith;
    below = lo;
    above = λ k h. hi k (omega arith);
  }
  search_loop-IsFirst (suc fuel) i j ij jn d lo hi = elim (Bool-cases (ltb i j)) [
    | inl t ↦
        let h = (i + j) / 2 in
        let lt : i < j = ground arith in
        rw t (elim (Bool-cases (f h)) [
          | inl p ↦ rw p (
              search_loop-IsFirst fuel i h (omega arith) (omega arith) (omega arith) lo
                (λ k a b. mono h k a b p))
          | inr q ↦ rw q (
              search_loop-IsFirst fuel (h + 1) j (omega arith) (omega arith) (omega arith)
                (λ k a. fails h k (omega arith) (omega arith) q) hi)
        ])
    | inr t ↦
        let ge : j ≤ i = ground arith in
        rw t (record { bound = omega arith; below = lo; above = λ k a. hi k (omega arith) })
  ]

  pub search-IsFirst : IsFirst n f (search n f)
  unfolding search
  search-IsFirst =
      search_loop-IsFirst n 0 n (omega arith) (omega arith) (omega arith)
        (λ k h. absurd (omega arith)) (λ k a b. absurd (omega arith))
