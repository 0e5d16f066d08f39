-- ===== src/Common/Strings.antt =====
-- Go strings as lists of bytes, with the functions of `strings` and `strconv` that the program
-- uses on them.
use Prim.Native.Nat.{ℕ, ◌+◌, ◌-◌, ◌*◌, ◌^◌}
use Prim.Native.Char.{code}
use Prim.Native.String.{String}
use mathlib.Core.Path.{◌≡◌, refl}
use mathlib.Core.Logic.{◌↔◌}
use mathlib.Core.Bool.{Bool, true, false, ◌&&◌, ◌||◌}
use mathlib.Core.Option.{Option, none, some}
use mathlib.Core.List.{List, [], ◌∷◌, reverse}
use native.Mathlib.Omega.{arith}
use go_quant_tick.Common.Tests.{Eq, ltb, leb, nat_eq, if◌then◌else◌}

abbrev pub Text : Type 0
Text = List ℕ

-- The bytes of an ASCII literal.
abbrev pub bytes : String → Text
bytes String.[] = []
bytes (String.◌∷◌ c s) = code c ∷ bytes s

abbrev pub text_eq : Text → Text → Bool
text_eq [] [] = true
text_eq [] (b ∷ t) = false
text_eq (a ∷ s) [] = false
text_eq (a ∷ s) (b ∷ t) = nat_eq a b && text_eq s t

text_eq→eq : (s t : Text) → text_eq s t ≡ true → s ≡ t
text_eq→eq [] [] h = refl
text_eq→eq [] (b ∷ t) h = cc
text_eq→eq (a ∷ s) [] h = cc
text_eq→eq (a ∷ s) (b ∷ t) h = ground (arith, text_eq→eq s t)

text_eq_self : (s : Text) → text_eq s s ≡ true
text_eq_self [] = refl
text_eq_self (a ∷ s) = ground (arith, text_eq_self s)

pub text_eq_iff : (s t : Text) → (text_eq s t ≡ true) ↔ (s ≡ t)
text_eq_iff s t = (text_eq→eq s t, λ e. rw e (text_eq_self t))

instance abbrev pub text_Eq : Eq Text
text_Eq = record { equal = text_eq; equal_iff = text_eq_iff }

-- `left < right` on strings.
abbrev pub text_lt : Text → Text → Bool
text_lt s [] = false
text_lt [] (b ∷ t) = true
text_lt (a ∷ s) (b ∷ t) = ltb a b || (nat_eq a b && text_lt s t)

-- The white space of ASCII: tab, line feed, vertical tab, form feed, carriage return and space.
unfoldable pub is_space : ℕ → Bool
is_space c = (leb 9 c && leb c 13) || nat_eq c 32

-- strings.TrimLeft of white space
unfoldable pub trim_left : Text → Text
trim_left [] = []
trim_left (c ∷ s) = let rest = trim_left s in if is_space c then rest else c ∷ s

-- strings.TrimSpace
unfoldable pub trim_space : Text → Text
unfolding is_space trim_left
trim_space s = reverse (trim_left (reverse (trim_left s)))

lower : ℕ → ℕ
lower c = if leb b'A' c && leb c b'Z' then c + 32 else c

-- strings.ToLower on ASCII
unfoldable pub to_lower : Text → Text
unfolding lower
to_lower [] = []
to_lower (c ∷ s) = lower c ∷ to_lower s

-- strings.HasPrefix
unfoldable pub has_prefix : Text → Text → Bool
has_prefix s [] = true
has_prefix [] (p ∷ prefix) = false
has_prefix (c ∷ s) (p ∷ prefix) = nat_eq c p && has_prefix s prefix

-- strings.TrimPrefix
unfoldable pub trim_prefix : Text → Text → Text
trim_prefix s [] = s
trim_prefix [] (p ∷ prefix) = []
trim_prefix (c ∷ s) (p ∷ prefix) =
    let rest = trim_prefix s prefix in if has_prefix (c ∷ s) (p ∷ prefix) then rest else c ∷ s

-- strings.HasSuffix
unfoldable pub has_suffix : Text → Text → Bool
has_suffix s suffix = has_prefix (reverse s) (reverse suffix)

-- strings.TrimSuffix
unfoldable pub trim_suffix : Text → Text → Text
unfolding trim_prefix
trim_suffix s suffix = reverse (trim_prefix (reverse s) (reverse suffix))

-- strings.Contains of one byte
unfoldable pub contains_byte : ℕ → Text → Bool
contains_byte b [] = false
contains_byte b (c ∷ s) = nat_eq c b || contains_byte b s

push_front : ℕ → List Text → List Text
push_front c [] = (c ∷ []) ∷ []
push_front c (part ∷ parts) = (c ∷ part) ∷ parts

-- strings.Split at one byte
unfoldable pub split_text : ℕ → Text → List Text
unfolding push_front
split_text sep [] = [] ∷ []
split_text sep (c ∷ s) =
    let parts = split_text sep s in if nat_eq c sep then [] ∷ parts else push_front c parts

-- strings.Cut at one byte
unfoldable pub cut : ℕ → Text → Option (Text × Text)
cut sep [] = none
cut sep (c ∷ s) =
    let rest = cut sep s in
    if nat_eq c sep
    then some ([], s)
    else elim rest [ none ↦ none | some (before, after) ↦ some (c ∷ before, after) ]

-- What stands before and behind the last `sep`, as by strings.LastIndex and two slices.
unfoldable pub cut_last : ℕ → Text → Option (Text × Text)
cut_last sep [] = none
cut_last sep (c ∷ s) = elim (cut_last sep s) [
  | some (before, after) ↦ some (c ∷ before, after)
  | none ↦ if nat_eq c sep then some ([], s) else none
]

unfoldable pub digits : ℕ → Text → Option ℕ
digits n [] = some n
digits n (c ∷ s) =
    let rest = digits (n * 10 + (c - b'0')) s in if leb b'0' c && leb c b'9' then rest else none

unfoldable pub unsigned : Text → Option ℕ
unfolding digits
unsigned [] = none
unsigned (c ∷ s) = digits 0 (c ∷ s)

-- strconv.ParseInt(s, 10, 64), as the number plus 2 ^ 63, which has the order of the number.
unfoldable pub parse_int : Text → Option ℕ
unfolding unsigned
parse_int [] = none
parse_int (c ∷ s) =
    if nat_eq c b'-'
    then elim (unsigned s) [
      | none ↦ none
      | some n ↦ if leb n (2 ^ 63) then some (2 ^ 63 - n) else none
    ]
    else elim (unsigned (if nat_eq c b'+' then s else c ∷ s)) [
      | none ↦ none
      | some n ↦ if ltb n (2 ^ 63) then some (2 ^ 63 + n) else none
    ]
