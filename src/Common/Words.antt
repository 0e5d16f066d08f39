-- ===== src/Common/Words.antt =====
-- Go's `int` is 64 bits wide: a value is its bit pattern, a number below 2 ^ 64.
use Prim.Native.Nat.{ℕ, ◌+◌, ◌-◌, ◌%◌, ◌^◌, ◌<◌}
use mathlib.Core.Path.{◌≡◌, refl}
use mathlib.Core.Bool.{Bool}
use native.Mathlib.Omega.{arith}
use go_quant_tick.Common.Tests.{ltb}

abbrev pub Word : Type 0
Word = ℕ

abbrev pub minus_one : Word
minus_one = 2 ^ 64 - 1

-- `a + b` on `int`
unfoldable pub int_add : Word → Word → Word
int_add a b = (a + b) % 2 ^ 64

-- `a < b` on `int`: moving both by 2 ^ 63 turns the signed order into the order of the patterns.
unfoldable pub int_lt : Word → Word → Bool
int_lt a b = ltb ((a + 2 ^ 63) % 2 ^ 64) ((b + 2 ^ 63) % 2 ^ 64)

pub int_add_assoc : (a b c : Word) → int_add (int_add a b) c ≡ int_add a (int_add b c)
unfolding int_add
int_add_assoc a b c = omega arith

pub int_add_comm : (a b : Word) → int_add a b ≡ int_add b a
unfolding int_add
int_add_comm a b = omega arith

pub int_add-lt : (a b : Word) → int_add a b < 2 ^ 64
unfolding int_add
int_add-lt a b = omega arith

pub zero-int_add : (a : Word) → a < 2 ^ 64 → int_add 0 a ≡ a
unfolding int_add
zero-int_add a h = omega arith

int_lt_signed : int_lt minus_one 1 ≡ Bool.true
unfolding int_lt
int_lt_signed = refl
