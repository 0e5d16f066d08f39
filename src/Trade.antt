-- ===== src/Trade.antt =====
-- quanttick/trade_event.go: the normalized trade that adapters, aggregators and publishers share.
use go_quant_tick.Common.{
  ℕ, ◌-◌, ◌*◌, ◌%◌, ◌≡◌, Bool, Option, none, some, ◌++◌, Text, bytes, Word, nat_eq, not,
  if◌then◌else◌,
}

-- `time.Time` as the nanoseconds since Go's zero time, in UTC. `time.Duration` in nanoseconds.
abbrev pub Time : Type 0
Time = ℕ

abbrev pub Duration : Type 0
Duration = ℕ

abbrev pub second : Duration
second = 1_000_000_000

abbrev pub minute : Duration
minute = 60 * second

-- timestamp.Truncate(duration), which counts from the zero time
abbrev pub truncate : Duration → Time → Time
truncate duration timestamp = timestamp - timestamp % duration

-- The package github.com/shopspring/decimal, over the numbers `D` that its values stand for.
pub record DecimalOps (D : Type 0) : Type 0 where
  pub zero_value : D
  pub add : D → D → D
  pub mul : D → D → D
  pub div : D → D → D
  pub less_than : D → D → Bool
  pub greater_than : D → D → Bool
  pub greater_than_or_equal : D → D → Bool
  pub equal : D → D → Bool
  pub is_zero : D → Bool
  pub is_negative : D → Bool
  pub abs : D → D
  pub new_from_int : Word → D
  pub int_part : D → Word
  pub new_from_string : Text → Option D

-- What is documented of sums and of the comparisons.
pub record DecimalLaws (D : Type 0) ⦃ops : DecimalOps D⦄ : Type 0 where
  pub zero-add : (a : D) → ops.add ops.zero_value a ≡ a
  pub add_comm : (a b : D) → ops.add a b ≡ ops.add b a
  pub add_assoc : (a b c : D) → ops.add (ops.add a b) c ≡ ops.add a (ops.add b c)
  pub greater_than_lem : (a b : D) → ops.greater_than a b ≡ ops.less_than b a
  pub greater_than_or_equal_lem :
      (a b : D) → ops.greater_than_or_equal a b ≡ not (ops.less_than a b)
  pub less_than_irrefl : (a : D) → ops.less_than a a ≡ Bool.false
  pub less_than_trans :
      (a b c : D)
      → ops.less_than a b ≡ Bool.false
      → ops.less_than b c ≡ Bool.false
      → ops.less_than a c ≡ Bool.false
  pub less_than_asymm : (a b : D) → ops.less_than a b ≡ Bool.true → ops.less_than b a ≡ Bool.false

pub record TradeEvent (D : Type 0) : Type 0 where
  pub exchange : Text
  pub uid : Text
  pub symbol : Text
  pub timestamp : Time
  pub nanoseconds : Word
  pub price : D
  pub volume : D
  pub notional : D
  pub tick_rule : Word
  pub ticks : Word
  pub is_sequential : Bool
  pub received_at : Time

pub record TradeEventInput (D : Type 0) : Type 0 where
  pub exchange : Text
  pub uid : Text
  pub symbol : Text
  pub timestamp : Time
  pub received_at : Time
  pub price : D
  pub volume : Option D
  pub notional : D
  pub tick_rule : Word
  pub nanoseconds : Word
  pub ticks : Word
  pub is_sequential : Bool

-- symbol_thresholds.go: the key of a market in every map of the program
unfoldable pub exchange_symbol_key : Text → Text → Text
exchange_symbol_key exchange symbol = exchange ++ (bytes ":" ++ symbol)

module _ {D : Type 0} where
  unfoldable pub new_trade_event : ⦃ops : DecimalOps D⦄ → TradeEventInput D → TradeEvent D
  new_trade_event ⦃ops⦄ input = record {
    exchange = input.exchange;
    uid = input.uid;
    symbol = input.symbol;
    timestamp = input.timestamp;
    nanoseconds = input.nanoseconds;
    price = input.price;
    volume = elim input.volume [ none ↦ ops.mul input.price input.notional | some v ↦ v ];
    notional = input.notional;
    tick_rule = input.tick_rule;
    ticks = if nat_eq input.ticks 0 then 1 else input.ticks;
    is_sequential = input.is_sequential;
    received_at = input.received_at;
  }

  -- tradeKey of trade_aggregator.go
  unfoldable pub trade_key : TradeEvent D → Text
  trade_key trade = exchange_symbol_key trade.exchange trade.symbol

  -- ParseDecimal
  unfoldable pub parse_decimal : ⦃ops : DecimalOps D⦄ → Text → Option D
  parse_decimal ⦃ops⦄ value = ops.new_from_string value
