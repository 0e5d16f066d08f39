-- ===== src/Exchanges/Binance.antt =====
-- quanttick/exchanges/binance.go: the adapters of the spot and the futures market of Binance. The
-- messages, the recovery and the session are in the modules below this one.
pub mod Protocol
pub mod Recovery
pub mod Session
pub mod Once
pub mod Parsed
pub mod Reconnected
pub mod Delivery
pub mod Caught
use go_quant_tick.Common.{
  ℕ, ◌+◌, ◌*◌, ◌≡◌, Bool, true, false, ◌&&◌, ◌||◌, not, Option, none, some, List, [], ◌∷◌, ◌++◌,
  Text, Word, text_Eq, Dict, lookup, insert, bytes, nat_eq, if◌then◌else◌, int_lt, int_add, int_sub,
  minus_one, format_int, to_lower, trim_space, text_eq, map,
}
use go_quant_tick.Trade.{
  Time, Duration, second, DecimalOps, TradeEvent, TradeEventInput, new_trade_event, parse_decimal,
}
use go_quant_tick.Exchanges.Protocol.{unix_milli}
use go_quant_tick.Exchanges.Runtime.{Channel, send_trade}

abbrev pub binance_name : Text
binance_name = bytes "binance"

abbrev pub binance_futures_name : Text
binance_futures_name = bytes "binance-futures"

abbrev pub binance_subscription_buffer_limit : ℕ
binance_subscription_buffer_limit = 10000

abbrev pub binance_subscription_request_id : Word
binance_subscription_request_id = 1

abbrev pub binance_recovery_page_limit : ℕ
binance_recovery_page_limit = 1000

abbrev pub binance_recovery_max_pages : ℕ
binance_recovery_max_pages = 100

abbrev pub binance_recovery_max_weight : Word
binance_recovery_max_weight = 1200

pub data BinanceError : Type 0 where
  server_shutdown : BinanceError
  parse_message : BinanceError
  parse_envelope : BinanceError
  missing_data : Text → BinanceError
  stream_mismatch : (combined expected : Text) → BinanceError
  buyer_maker_envelope : BinanceError
  missing_buyer_maker : BinanceError
  parse_buyer_maker : BinanceError
  parse_price : BinanceError
  parse_quantity : BinanceError
  parse_error_code : BinanceError
  websocket_error : Word → Text → BinanceError
  invalid_response : Text → BinanceError
  parse_response_id : BinanceError
  unexpected_id : Word → BinanceError
  request_failed : Text → BinanceError
  buffer_exceeded : BinanceError
  dial_failed : BinanceError
  read_failed : BinanceError
  acknowledgement_timed_out : BinanceError
  fetch_failed : BinanceError
  parse_recovery_trade : BinanceError
  unexpected_trade : (expected got : Word) → BinanceError
  too_many_pages : BinanceError
  context_ended : BinanceError

-- The parts of the adapter that its operations read: the throttle is in Recovery/Throttle.antt, the
-- HTTP client and the addresses are not modelled.
pub record Binance : Type 0 where
  pub symbols : List Text
  pub name : Text
  pub api_key : Text
  pub stream : Text
  pub reconnect_delay : Duration
  pub recovery_max_weight : Word
  pub last_ids : Dict Text Word

pub record BinanceParsedTrade (D : Type 0) : Type 0 where
  pub event : TradeEvent D
  pub trade_id : Word

pub record BinanceTradeMessage : Type 0 where
  pub symbol : Text
  pub trade_id : Word
  pub aggregate_trade_id : Word
  pub first_trade_id : Word
  pub last_trade_id : Word
  pub trade_time : Word
  pub price : Text
  pub quantity : Text

-- the options in the order in which they are given
unfoldable pub apply_options : List (Binance → Binance) → Binance → Binance
apply_options [] exchange = exchange
apply_options (option ∷ options) exchange = apply_options options (option exchange)

unfoldable pub new_binance : List Text → List (Binance → Binance) → Binance
new_binance symbols options = apply_options options (record {
  symbols = symbols;
  name = binance_name;
  api_key = [];
  stream = bytes "trade";
  reconnect_delay = second;
  recovery_max_weight = binance_recovery_max_weight;
  last_ids = [];
})

unfoldable pub new_binance_futures : List Text → List (Binance → Binance) → Binance
new_binance_futures symbols options = apply_options options (record {
  symbols = symbols;
  name = binance_futures_name;
  api_key = [];
  stream = bytes "aggTrade";
  reconnect_delay = second;
  recovery_max_weight = binance_recovery_max_weight;
  last_ids = [];
})

unfoldable pub with_binance_api_key : Text → Binance → Binance
with_binance_api_key api_key exchange = record exchange { api_key = trim_space api_key }

unfoldable pub with_binance_reconnect_delay : Duration → Binance → Binance
with_binance_reconnect_delay delay exchange = record exchange { reconnect_delay = delay }

unfoldable pub with_binance_recovery_max_weight : Word → Binance → Binance
with_binance_recovery_max_weight max_weight exchange = record exchange {
  recovery_max_weight = max_weight;
}

-- `SubscriptionMessages`: the parameters of the one message
unfoldable pub subscription_params : Binance → List Text
subscription_params b = map (λ symbol. to_lower symbol ++ (bytes "@" ++ b.stream)) b.symbols

-- whether the ID of the trade comes right behind the last one of its symbol
unfoldable pub follows_last : Option Word → Word → Bool
follows_last none trade_id = false
follows_last (some previous) trade_id = nat_eq trade_id (int_add previous 1)

-- whether there is no last ID, or the trade is above it
unfoldable pub above_last : Option Word → Word → Bool
above_last none trade_id = true
above_last (some previous) trade_id = int_lt previous trade_id

-- the map of last IDs with the trade; it is left alone by a trade that is not above
unfoldable pub raise_last : Text → Word → Dict Text Word → Dict Text Word
unfolding above_last
raise_last symbol trade_id last_ids =
    if above_last (lookup symbol last_ids) trade_id
    then insert symbol trade_id last_ids
    else last_ids

module _ {D : Type 0} where
  -- the trade of a message whose numbers are read
  unfoldable pub parsed_trade :
      ⦃ops : DecimalOps D⦄
      → Binance
      → BinanceTradeMessage
      → Bool
      → Time
      → Dict Text Word
      → D
      → D
      → BinanceParsedTrade D
  unfolding follows_last
  parsed_trade b msg buyer_is_maker received_at last_ids price notional =
      let aggregated : Bool = text_eq b.stream (bytes "aggTrade") in
      let trade_id : Word = if aggregated then msg.aggregate_trade_id else msg.trade_id in
      let ticks : Word =
        if aggregated then int_add (int_sub msg.last_trade_id msg.first_trade_id) 1 else 1 in
      record {
        event = new_trade_event (record {
          exchange = b.name;
          uid = format_int trade_id;
          symbol = msg.symbol;
          timestamp = unix_milli msg.trade_time;
          received_at = received_at;
          price = price;
          volume = none;
          notional = notional;
          tick_rule = if buyer_is_maker then minus_one else 1;
          nanoseconds = 0;
          ticks = ticks;
          is_sequential = follows_last (lookup msg.symbol last_ids) trade_id;
        });
        trade_id = trade_id;
      }

  -- `emitParsedTrade` on the last IDs of the adapter and those of the session. The Boolean is false
  -- where the context ends.
  unfoldable pub emit_parsed_trade :
      Binance × Dict Text Word × Channel D
      → BinanceParsedTrade D
      → (Binance × Dict Text Word × Channel D) × Bool
  unfolding above_last follows_last
  emit_parsed_trade (b, sequence_ids, channel) parsed =
      let symbol = parsed.event.symbol in
      let previous = lookup symbol b.last_ids in
      if not (above_last previous parsed.trade_id)
      then ((b, sequence_ids, channel), true)
      else (let (channel', delivered) =
            send_trade channel
              (record parsed.event { is_sequential = follows_last previous parsed.trade_id }) in
          if not delivered then ((b, sequence_ids, channel'), false) else (
            (
              record b { last_ids = insert symbol parsed.trade_id b.last_ids },
              insert symbol parsed.trade_id sequence_ids,
              channel',
            ),
            true,
          ))

  -- the loops of `run`, which return at the first trade that is not delivered
  unfoldable pub emit_each :
      Binance × Dict Text Word × Channel D
      → List (BinanceParsedTrade D)
      → (Binance × Dict Text Word × Channel D) × Bool
  emit_each s [] = (s, true)
  emit_each s (parsed ∷ rest) =
      let (s', delivered) = emit_parsed_trade s parsed in
      let after = emit_each s' rest in if delivered then after else (s', false)
