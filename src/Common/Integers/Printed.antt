-- ===== src/Common/Integers/Printed.antt =====
-- The decimal print of an `int64`, and how it is read back.
use Prim.Native.Nat.{ℕ, zero, suc, ◌+◌, ◌-◌, ◌*◌, ◌/◌, ◌%◌, ◌^◌, ◌≤◌, ◌<◌}
use mathlib.Core.Path.{◌≡◌, refl, ◌∙◌, ap}
use mathlib.Core.Logic.{inl, inr}
use mathlib.Core.Option.{some}
use mathlib.Core.List.{[], ◌∷◌}
use native.Mathlib.Omega.{arith}
use go_quant_tick.Common.Tests.{ltb, Bool-cases}
use go_quant_tick.Common.Strings.{Text, digits, unsigned, parse_int}
use go_quant_tick.Common.Words.{Word}
use go_quant_tick.Common.Integers.{decimal, format_int, parse_int64}

abbrev power10 : ℕ → ℕ
power10 zero = 1
power10 (suc n) = 10 * power10 n

-- Reading the last digit of `n` behind the others gives `n`.
digits_last : (n : ℕ) (out : Text) → digits (n / 10) ((b'0' + n % 10) ∷ out) ≡ digits n out
unfolding digits
digits_last n out = ground arith

digits_first : (n : ℕ) (out : Text) → n < 10 → digits 0 ((b'0' + n) ∷ out) ≡ digits n out
unfolding digits
digits_first n out h = ground arith

digits-decimal :
    (rounds n : ℕ) (out : Text)
    → n < power10 rounds
    → digits 0 (decimal rounds n out) ≡ digits n out
unfolding decimal
digits-decimal zero n out h = let none_left : 0 ≡ n = omega arith in rw none_left refl
digits-decimal (suc rounds) n out h = elim (Bool-cases (ltb n 10)) [
  | inl small ↦ rw small (digits_first n out (ground arith))
  | inr large ↦
      rw large
        (digits-decimal rounds (n / 10) ((b'0' + n % 10) ∷ out) (omega arith) ∙ digits_last n out)
]

-- The print starts with a digit.
abbrev StartsWithDigit : Text → Type 0
StartsWithDigit [] = ⊥
StartsWithDigit (c ∷ s) = (b'0' ≤ c) × (c ≤ b'9')

decimal-StartsWithDigit :
    (rounds n : ℕ) (out : Text) → StartsWithDigit out → StartsWithDigit (decimal rounds n out)
unfolding decimal
decimal-StartsWithDigit zero n out h = h
decimal-StartsWithDigit (suc rounds) n out h = elim (Bool-cases (ltb n 10)) [
  | inl small ↦ rw small ((omega arith, ground arith))
  | inr large ↦
      rw large
        (decimal-StartsWithDigit rounds (n / 10) ((b'0' + n % 10) ∷ out) (omega arith, omega arith))
]

decimal_first : (rounds n : ℕ) → StartsWithDigit (decimal (suc rounds) n [])
unfolding decimal
decimal_first rounds n = elim (Bool-cases (ltb n 10)) [
  | inl small ↦ rw small ((omega arith, ground arith))
  | inr large ↦
      rw large
        (decimal-StartsWithDigit rounds (n / 10) ((b'0' + n % 10) ∷ []) (omega arith, omega arith))
]

unsigned-digits : (s : Text) → StartsWithDigit s → unsigned s ≡ digits 0 s
unfolding unsigned
unsigned-digits [] h = absurd h
unsigned-digits (c ∷ s) h = refl

unsigned-decimal : (n : ℕ) → n < 2 ^ 64 → unsigned (decimal 20 n []) ≡ some n
unfolding digits
unsigned-decimal n h =
    unsigned-digits (decimal 20 n []) (decimal_first 19 n) ∙ digits-decimal 20 n [] (omega arith)

parse_int-unsigned :
    (s : Text) (n : ℕ)
    → StartsWithDigit s
    → unsigned s ≡ some n
    → n < 2 ^ 63
    → parse_int s ≡ some (2 ^ 63 + n)
unfolding parse_int
parse_int-unsigned [] n d h small = absurd d
parse_int-unsigned (c ∷ s) n d h small = ground arith

parse_int_negative :
    (s : Text) (n : ℕ) → unsigned s ≡ some n → n ≤ 2 ^ 63 → parse_int (b'-' ∷ s) ≡ some (2 ^ 63 - n)
unfolding parse_int
parse_int_negative s n h small = ground arith

parse_int64_of :
    (s : Text) (n : ℕ) → parse_int s ≡ some n → parse_int64 s ≡ some ((n + 2 ^ 63) % 2 ^ 64)
unfolding parse_int64
parse_int64_of s n h = rw (h, parse_int64) refl

pub parse_int64-format_int : (w : Word) → w < 2 ^ 64 → parse_int64 (format_int w) ≡ some w
unfolding format_int
parse_int64-format_int w h = elim (Bool-cases (ltb w (2 ^ 63))) [
  | inl positive ↦
      let small : w < 2 ^ 63 = ground arith in
      let same : (2 ^ 63 + w + 2 ^ 63) % 2 ^ 64 ≡ w = omega arith in
      rw positive (
        parse_int64_of (decimal 20 w []) (2 ^ 63 + w)
          (parse_int-unsigned (decimal 20 w []) w (decimal_first 19 w) (unsigned-decimal w h) small)
        ∙ ap some same)
  | inr negative ↦
      let large : 2 ^ 63 ≤ w = ground arith in
      let same : (2 ^ 63 - (2 ^ 64 - w) + 2 ^ 63) % 2 ^ 64 ≡ w = omega arith in
      rw negative (
        parse_int64_of (b'-' ∷ decimal 20 (2 ^ 64 - w) []) (2 ^ 63 - (2 ^ 64 - w)) (
          parse_int_negative (decimal 20 (2 ^ 64 - w) []) (2 ^ 64 - w)
            (unsigned-decimal (2 ^ 64 - w) (omega arith)) (omega arith))
        ∙ ap some same)
]

pub format_int_injective :
    (v w : Word) → v < 2 ^ 64 → w < 2 ^ 64 → format_int v ≡ format_int w → v ≡ w
format_int_injective v w hv hw e =
    cc (parse_int64-format_int v hv, parse_int64-format_int w hw, ap parse_int64 e)
