-- ===== src/Merge/Less/Order.antt =====
-- The laws of the order of a bucket, for trades with numbers for UIDs and for the venues with
-- opaque UIDs, in quanttick/websocket_data_merge.go.
use go_quant_tick.Common.{
  ℕ, ◌≡◌, ◌<◌, ◌^◌, Bool, true, false, not, ltb, nat_eq, int_lt, if◌then◌else◌, Word, arith,
}

-- timestamp, nanoseconds and a number, compared in this order
unfoldable pub lex : ℕ → Word → ℕ → ℕ → Word → ℕ → Bool
lex t n u t' n' u' =
    if not (nat_eq t t') then ltb t t' else if not (nat_eq n n') then int_lt n n' else ltb u u'

int_lt_asymm : (a b : Word) → int_lt a b ≡ true → int_lt b a ≡ false
unfolding int_lt
int_lt_asymm a b h = ground arith

-- different words are in one order or the other
int_lt_total :
    (a b : Word) → a < 2 ^ 64 → b < 2 ^ 64 → int_lt a b ≡ false → int_lt b a ≡ false → a ≡ b
unfolding int_lt
int_lt_total a b ha hb h k = ground arith

int_lt_trans : (a b c : Word) → int_lt a b ≡ false → int_lt b c ≡ false → int_lt a c ≡ false
unfolding int_lt
int_lt_trans a b c h k = ground arith

pub lex_asymm : (t n u t' n' u' : ℕ) → lex t n u t' n' u' ≡ true → lex t' n' u' t n u ≡ false
unfolding lex
lex_asymm t n u t' n' u' h = ground (arith, int_lt_asymm n n')

pub lex_trans :
    (t n u t' n' u' t'' n'' u'' : ℕ)
    → n < 2 ^ 64
    → n' < 2 ^ 64
    → n'' < 2 ^ 64
    → lex t n u t' n' u' ≡ false
    → lex t' n' u' t'' n'' u'' ≡ false
    → lex t n u t'' n'' u'' ≡ false
unfolding lex
lex_trans t n u t' n' u' t'' n'' u'' b b' b'' h k = ground (
  arith,
  int_lt_trans n n' n'',
  int_lt_asymm n n',
  int_lt_asymm n' n'',
  int_lt_total n n',
  int_lt_total n' n'',
  int_lt_asymm n n'',
  int_lt_asymm n'' n,
  int_lt_asymm n' n,
  int_lt_asymm n'' n',
  int_lt_trans n' n'' n,
  int_lt_trans n'' n n',
)
