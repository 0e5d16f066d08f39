-- ===== src/Examples/Venues.antt =====
-- quanttick/exchanges: the adapters of Binance, Bitfinex and Coinbase.
use go_quant_tick.Common.{
  ℕ, ◌+◌, ◌%◌, ◌^◌, ◌<◌, ◌≤◌, ◌≡◌, ◌↔◌, refl, true, false, none, some, Bool, Option, List, [], ◌∷◌,
  ◌++◌, Text, Word, text_Eq, Dict, lookup, text_eq, bytes, if◌then◌else◌, length, Result, ok, err,
  arith, inl, inr, format_int, int_add, minus_one,
}
use go_quant_tick.Trade.{TradeEvent, Time}
use go_quant_tick.Examples.Decimals.{nat_decimals, trade}
use go_quant_tick.Exchanges.Protocol.{Json, split_event_timestamp}
use go_quant_tick.Exchanges.Runtime.{
  Channel, Read, frame, failure, Frame, taken, Attempt, answered, HttpResponse,
}
use go_quant_tick.Exchanges.Binance.{
  Binance, BinanceTradeMessage, BinanceParsedTrade, new_binance, new_binance_futures, emit_each,
}
use go_quant_tick.Exchanges.Binance.Protocol.{BinanceJson}
use go_quant_tick.Exchanges.Binance.Recovery.{recover_futures_symbol}
use go_quant_tick.Exchanges.Binance.Recovery.Consecutive.{Consecutive}
use go_quant_tick.Exchanges.Binance.Recovery.Gapless.{recover_futures_symbol-Consecutive}
use go_quant_tick.Exchanges.Binance.Session.{SessionInput, run, run_sessions}
use go_quant_tick.Exchanges.Binance.Once.{IsOnce}
use go_quant_tick.Exchanges.Binance.Parsed.{DecodesInt64}
use go_quant_tick.Exchanges.Binance.Reconnected.{run_sessions-IsOnce}
use go_quant_tick.Exchanges.Binance.Delivery.{Delivers, emit_each-Delivers}
use go_quant_tick.Exchanges.Bitfinex.{Bitfinex, BitfinexTradeUpdate, Tag, te, tu, at_symbol}
use go_quant_tick.Exchanges.Bitfinex.Pending.{IsKeyed}
use go_quant_tick.Exchanges.Bitfinex.Order.{
  TradeMessage, handle_updates, announced_for, Ordered, handle_updates-Ordered,
}
use go_quant_tick.Exchanges.Coinbase.{
  Coinbase, CoinbaseSubscriptionChannel, CoinbaseFormats, CoinbaseMatchMessage, CoinbaseParsedTrade,
  new_coinbase, accept_subscriptions, matches_products,
}
use go_quant_tick.Exchanges.Coinbase.Subscriptions.{SameTexts, accept_subscriptions_iff}
use go_quant_tick.Exchanges.Coinbase.Recovery.{recover_coinbase_symbol}
use go_quant_tick.Exchanges.Coinbase.Recovery.Consecutive.{Follows, recover_coinbase_symbol-Follows}

-- Messages that stand for their length: an acknowledgement is empty, and any other is a trade whose
-- ID is its length.
instance abbrev toy_json : Json
toy_json = record {
  object = λ payload.
      if text_eq payload []
      then some ((bytes "result", bytes "null") ∷ (bytes "id", bytes "1") ∷ [])
      else some ((bytes "e", bytes "trade") ∷ (bytes "m", bytes "true") ∷ []);
  array = λ payload. some [];
  text = λ payload. some (bytes "trade");
  int64 = λ payload. some 1;
  boolean = λ payload. some true;
}

abbrev toy_message : Text → BinanceTradeMessage
toy_message payload = record {
  symbol = bytes "BTCUSDT";
  trade_id = length payload % 2 ^ 64;
  aggregate_trade_id = length payload % 2 ^ 64;
  first_trade_id = 1;
  last_trade_id = 1;
  trade_time = 1000;
  price = bytes "10";
  quantity = bytes "2";
}

abbrev toy_decode : BinanceJson
toy_decode = record { combined = λ payload. none; trade = λ payload. some (toy_message payload) }

toy_int64 :
    (payload : Text) (msg : BinanceTradeMessage)
    → toy_decode.trade payload ≡ some msg
    → (msg.trade_id < 2 ^ 64) × (msg.aggregate_trade_id < 2 ^ 64)
toy_int64 payload msg h = ground arith

toy_DecodesInt64 : DecodesInt64 toy_decode
toy_DecodesInt64 = record { ids = toy_int64 }

abbrev toy_frame : Text → Read
toy_frame payload =
    frame (record { payload = payload; received_at = 5; is_data = true; offer = taken })

-- a session that is acknowledged and then reads trades
abbrev toy_input : List Text → SessionInput
toy_input payloads = record {
  connected = true;
  reads = toy_frame [] ∷ reads_of payloads;
  futures_attempts = λ symbol. [];
  spot_attempts = λ symbol. [];
}
  where
    reads_of : List Text → List Read
    reads_of [] = failure false false true ∷ []
    reads_of (payload ∷ rest) = toy_frame payload ∷ reads_of rest

abbrev toy_binance : Binance
toy_binance = record {
  symbols = bytes "BTCUSDT" ∷ [];
  name = bytes "binance";
  api_key = [];
  stream = bytes "trade";
  reconnect_delay = 1;
  recovery_max_weight = 1200;
  last_ids = [];
}

abbrev empty_channel : Channel ℕ
empty_channel = record { sent = []; room = 10 }

-- The trade with the ID 2 comes in both sessions.
abbrev two_sessions : List SessionInput
two_sessions =
    toy_input (bytes "a" ∷ bytes "ab" ∷ []) ∷ toy_input (bytes "ab" ∷ bytes "abc" ∷ []) ∷ []

abbrev uids : List (TradeEvent ℕ) → List Text
uids [] = []
uids (event ∷ events) = event.uid ∷ uids events

test_sessions :
    uids (run_sessions toy_decode (toy_binance, empty_channel) two_sessions).0.1.sent
    ≡ bytes "1" ∷ bytes "2" ∷ bytes "3" ∷ []
unfolding run_sessions go_quant_tick.Exchanges.Binance.Session.handle_frame
    go_quant_tick.Common.lookup go_quant_tick.Common.trim_space go_quant_tick.Trade.parse_decimal
    go_quant_tick.Exchanges.Binance.emit_parsed_trade go_quant_tick.Exchanges.Runtime.send_trade
    go_quant_tick.Common.insert go_quant_tick.Trade.new_trade_event go_quant_tick.Common.int_lt
    go_quant_tick.Common.stable_sort format_int
test_sessions = refl

empty-IsOnce : IsOnce toy_binance empty_channel
empty-IsOnce = record { market = inr refl; past = tt; once = tt }

run_sessions-IsOnce_example :
    IsOnce
      (run_sessions toy_decode (toy_binance, empty_channel) two_sessions).0.0
      (run_sessions toy_decode (toy_binance, empty_channel) two_sessions).0.1
run_sessions-IsOnce_example =
    run_sessions-IsOnce toy_decode toy_DecodesInt64 toy_binance empty_channel two_sessions
      empty-IsOnce

-- a page of aggregate trades that misses the ID 4
abbrev futures_attempts : List (Attempt (List Text))
futures_attempts =
    answered (record {
      status_code = 200;
      header = λ name. [];
      retry_after = some 0;
      received_at = 5;
      body = some (bytes "ab" ∷ bytes "abc" ∷ bytes "abcde" ∷ []);
    })
    ∷ []

recover_futures_symbol-Consecutive_example :
    Consecutive
      (bytes "BTCUSDT")
      2
      (recover_futures_symbol {D = ℕ} toy_binance
        (bytes "BTCUSDT")
        toy_decode
        futures_attempts
        2
        []).rows
recover_futures_symbol-Consecutive_example =
    recover_futures_symbol-Consecutive ℕ toy_binance (bytes "BTCUSDT") toy_decode futures_attempts 2
      []

abbrev parsed : Word → BinanceParsedTrade ℕ
parsed trade_id = record { event = trade (format_int trade_id) 1000 10 2 1; trade_id = trade_id }

abbrev known_binance : Binance
known_binance = record toy_binance { last_ids = (bytes "BTCUSDT", 4) ∷ [] }

-- trades that overlap with those before
abbrev overlapping : List (BinanceParsedTrade ℕ)
overlapping = parsed 5 ∷ parsed 6 ∷ parsed 5 ∷ parsed 7 ∷ []

emit_each-Delivers_example :
    Delivers known_binance.last_ids [] overlapping
      (emit_each (known_binance, [], record { sent = []; room = 10 }) overlapping)
unfolding go_quant_tick.Common.lookup int_add go_quant_tick.Exchanges.Binance.raise_last
    go_quant_tick.Common.int_lt go_quant_tick.Common.insert
emit_each-Delivers_example =
    emit_each-Delivers known_binance [] [] 10 overlapping (omega arith)
      (inr refl, (inr refl, (inl refl, (inr refl, tt))))

abbrev empty_bitfinex : Bitfinex ℕ
empty_bitfinex = record {
  symbols = bytes "BTCUSD" ∷ bytes "ETHUSD" ∷ [];
  rest_url = [];
  channel_symbols = [];
  subscribed_symbols = [];
  last_ids = [];
  pending_order = [];
  pending_order_id = [];
  pending_updates = [];
  recovery_gaps = [];
}

abbrev about : Text → Tag → Word → TradeMessage ℕ
about symbol tag trade_id = record {
  symbol = symbol;
  tag = tag;
  update = record {
    trade_id = trade_id;
    timestamp_millis = 1000;
    notional = 2;
    price = 10;
    tick_rule = 1;
    received_at = 5;
  };
}

-- The update of the second trade of a symbol comes first.
abbrev bitfinex_messages : List (TradeMessage ℕ)
bitfinex_messages =
    about (bytes "tBTCUSD") te 7
    ∷ about (bytes "tBTCUSD") te 8
    ∷ about (bytes "tETHUSD") te 3
    ∷ about (bytes "tBTCUSD") tu 8
    ∷ about (bytes "tETHUSD") tu 3
    ∷ about (bytes "tBTCUSD") tu 7
    ∷ []

test_order :
    uids (handle_updates empty_bitfinex bitfinex_messages).1
    ≡ bytes "3" ∷ bytes "7" ∷ bytes "8" ∷ []
unfolding handle_updates go_quant_tick.Exchanges.Bitfinex.handle_update
    go_quant_tick.Exchanges.Bitfinex.emit_ready lookup go_quant_tick.Common.insert format_int
    go_quant_tick.Common.delete
test_order = refl

empty-IsKeyed : IsKeyed empty_bitfinex.pending_updates
unfolding at_symbol lookup
empty-IsKeyed = record { keyed = λ symbol trade_id update h. cc }

handle_updates-Ordered_example :
    Ordered
      (bytes "tBTCUSD")
      []
      (announced_for (bytes "tBTCUSD") bitfinex_messages)
      (handle_updates empty_bitfinex bitfinex_messages).0
      (handle_updates empty_bitfinex bitfinex_messages).1
unfolding at_symbol go_quant_tick.Common.lookup
handle_updates-Ordered_example =
    handle_updates-Ordered (bytes "tBTCUSD") empty_bitfinex bitfinex_messages empty-IsKeyed tt

abbrev toy_coinbase : Coinbase
toy_coinbase = record {
  symbols = bytes "BTC-USD" ∷ bytes "ETH-USD" ∷ [];
  rest_url = bytes "https://api.exchange.coinbase.com";
  last_ids = [];
  seen = record { limit = 10; seen = []; order = [] };
  subscribed = false;
}

abbrev channels : List CoinbaseSubscriptionChannel
channels =
    record { name = bytes "heartbeat"; product_ids = [] }
    ∷ record { name = bytes "matches"; product_ids = bytes "ETH-USD" ∷ bytes "BTC-USD" ∷ [] }
    ∷ []

accept_subscriptions_iff_example :
    (accept_subscriptions toy_coinbase channels ≡ ok (record toy_coinbase { subscribed = true }))
    ↔ ((products : List Text) × (matches_products channels ≡ some products)
        × SameTexts products toy_coinbase.symbols)
accept_subscriptions_iff_example = accept_subscriptions_iff toy_coinbase channels

abbrev toy_formats : CoinbaseFormats
toy_formats = record {
  control = λ payload. none;
  match_message = λ payload. none;
  timestamp = λ text. some 1000;
}

abbrev match : Word → CoinbaseMatchMessage
match trade_id = record {
  message_type = [];
  trade_id = trade_id;
  product_id = [];
  time = bytes "now";
  price = bytes "10";
  size = bytes "2";
  side = bytes "sell";
}

abbrev coinbase_page : List CoinbaseMatchMessage → Attempt (List CoinbaseMatchMessage)
coinbase_page rows = answered (record {
  status_code = 200;
  header = λ name. [];
  retry_after = some 0;
  received_at = 5;
  body = some rows;
})

-- two pages, back to the trade with the ID 4
abbrev coinbase_attempts : List (Attempt (List CoinbaseMatchMessage))
coinbase_attempts =
    coinbase_page (match 8 ∷ match 7 ∷ []) ∷ coinbase_page (match 6 ∷ match 5 ∷ match 4 ∷ []) ∷ []

abbrev coinbase_trade : Word → CoinbaseParsedTrade ℕ
coinbase_trade trade_id = record {
  event = record {
    exchange = bytes "coinbase";
    uid = format_int trade_id;
    symbol = bytes "BTC-USD";
    timestamp = 1000;
    nanoseconds = 0;
    price = 1;
    volume = 1;
    notional = 1;
    tick_rule = 1;
    ticks = 1;
    is_sequential = false;
    received_at = 5;
  };
  trade_id = trade_id;
}

abbrev coinbase_trades : List (CoinbaseParsedTrade ℕ)
coinbase_trades = coinbase_trade 5 ∷ coinbase_trade 6 ∷ coinbase_trade 7 ∷ coinbase_trade 8 ∷ []

test_coinbase :
    recover_coinbase_symbol toy_formats (bytes "BTC-USD") 4 coinbase_attempts ≡ ok coinbase_trades
unfolding recover_coinbase_symbol go_quant_tick.Common.int_lt
    go_quant_tick.Exchanges.Coinbase.parse_coinbase_trade go_quant_tick.Trade.parse_decimal
    go_quant_tick.Common.trim_space go_quant_tick.Exchanges.Coinbase.Recovery.at_cursor
    go_quant_tick.Common.stable_sort go_quant_tick.Common.insert_by int_add
    go_quant_tick.Trade.new_trade_event split_event_timestamp go_quant_tick.Common.to_lower
test_coinbase = refl

recover_coinbase_symbol-Follows_example : Follows (bytes "BTC-USD") 4 coinbase_trades
recover_coinbase_symbol-Follows_example =
    recover_coinbase_symbol-Follows toy_formats (bytes "BTC-USD") 4 coinbase_attempts
      coinbase_trades test_coinbase
