-- ===== src/Common/Integers.antt =====
-- Go's `int64` as a bit pattern, printed and read in decimal, and compared with its sign.
pub mod Printed
use Prim.Native.Nat.{ℕ, zero, suc, ◌+◌, ◌-◌, ◌*◌, ◌/◌, ◌%◌, ◌^◌, ◌≤◌, ◌<◌}
use mathlib.Core.Path.{◌≡◌, refl, ◌∙◌, sym, ap}
use mathlib.Core.Logic.{inl, inr, ◌≢◌}
use mathlib.Core.Bool.{Bool, true, false}
use mathlib.Core.Option.{Option, none, some}
use mathlib.Core.List.{List, [], ◌∷◌}
use native.Mathlib.Omega.{arith}
use go_quant_tick.Common.Tests.{ltb, nat_eq, if◌then◌else◌, Bool-cases}
use go_quant_tick.Common.Strings.{Text, bytes, parse_int}
use go_quant_tick.Common.Words.{Word, int_lt}

-- the decimal digits of `n` in front of `out`; each round takes one
unfoldable pub decimal : ℕ → ℕ → Text → Text
decimal zero n out = out
decimal (suc rounds) n out =
    let rest = decimal rounds (n / 10) ((b'0' + n % 10) ∷ out) in
    if ltb n 10 then (b'0' + n) ∷ out else rest

-- strconv.FormatInt(n, 10); 2 ^ 63 has 19 digits
unfoldable pub format_int : Word → Text
unfolding decimal
format_int w = if ltb w (2 ^ 63) then decimal 20 w [] else b'-' ∷ decimal 20 (2 ^ 64 - w) []

-- strconv.ParseInt(s, 10, 64)
unfoldable pub parse_int64 : Text → Option Word
unfolding parse_int
parse_int64 s = elim (parse_int s) [ none ↦ none | some n ↦ some ((n + 2 ^ 63) % 2 ^ 64) ]

-- `a - b` on `int64`
unfoldable pub int_sub : Word → Word → Word
int_sub a b = (a + 2 ^ 64 - b) % 2 ^ 64

test_format : format_int (2 ^ 64 - 120) ≡ bytes "-120"
unfolding format_int
test_format = refl

test_parse : parse_int64 (bytes "-120") ≡ some (2 ^ 64 - 120)
unfolding parse_int64
test_parse = refl
