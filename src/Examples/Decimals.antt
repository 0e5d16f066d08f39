-- ===== src/Examples/Decimals.antt =====
-- Natural numbers as decimals, and sample trades, for the tests and the instances of the theorems.
use go_quant_tick.Common.{
  ℕ, ◌+◌, ◌*◌, ◌/◌, ◌≡◌, true, false, some, refl, arith, ltb, leb, nat_eq, not, Text, Word,
  minus_one, bytes,
}
use go_quant_tick.Trade.{DecimalOps, DecimalLaws, TradeEvent, Time}

instance abbrev pub nat_decimals : DecimalOps ℕ
nat_decimals = record {
  zero_value = 0;
  add = λ a b. a + b;
  mul = λ a b. a * b;
  div = λ a b. a / b;
  less_than = ltb;
  greater_than = λ a b. ltb b a;
  greater_than_or_equal = λ a b. leb b a;
  equal = nat_eq;
  is_zero = λ a. nat_eq a 0;
  is_negative = λ a. false;
  abs = λ a. a;
  new_from_int = λ a. a;
  int_part = λ a. a;
  new_from_string = λ s. some 1;
}

add_zero_left : (a : ℕ) → 0 + a ≡ a
add_zero_left a = omega arith

add_swap : (a b : ℕ) → a + b ≡ b + a
add_swap a b = omega arith

add_regroup : (a b c : ℕ) → a + b + c ≡ a + (b + c)
add_regroup a b c = omega arith

leb-not-ltb : (a b : ℕ) → leb b a ≡ not (ltb a b)
leb-not-ltb a b = ground arith

ltb_irrefl : (a : ℕ) → ltb a a ≡ false
ltb_irrefl a = ground arith

ltb_trans : (a b c : ℕ) → ltb a b ≡ false → ltb b c ≡ false → ltb a c ≡ false
ltb_trans a b c h k = ground arith

ltb_asymm : (a b : ℕ) → ltb a b ≡ true → ltb b a ≡ false
ltb_asymm a b h = ground arith

instance pub nat_decimal_laws : DecimalLaws ℕ
nat_decimal_laws = record {
  zero-add = add_zero_left;
  add_comm = add_swap;
  add_assoc = add_regroup;
  greater_than_lem = λ a b. refl;
  greater_than_or_equal_lem = leb-not-ltb;
  less_than_irrefl = ltb_irrefl;
  less_than_trans = ltb_trans;
  less_than_asymm = ltb_asymm;
}

-- A trade of one exchange and symbol.
abbrev pub trade : Text → Time → ℕ → ℕ → Word → TradeEvent ℕ
trade uid timestamp price notional tick_rule = record {
  exchange = bytes "binance";
  uid = uid;
  symbol = bytes "BTCUSDT";
  timestamp = timestamp;
  nanoseconds = 0;
  price = price;
  volume = price * notional;
  notional = notional;
  tick_rule = tick_rule;
  ticks = 1;
  is_sequential = true;
  received_at = timestamp;
}

abbrev pub buy_1 : TradeEvent ℕ
buy_1 = trade (bytes "1") 1000 10 2 1

abbrev pub buy_2 : TradeEvent ℕ
buy_2 = trade (bytes "2") 1000 11 3 1

abbrev pub sell_3 : TradeEvent ℕ
sell_3 = trade (bytes "3") 2000 9 100 minus_one
