-- ===== src/Exchanges/Coinbase.antt =====
-- quanttick/exchanges/coinbase.go and quanttick/exchanges/coinbase_protocol.go: the adapter of
-- Coinbase and its messages.
pub mod Subscriptions
pub mod Recovery
pub mod Session
use go_quant_tick.Common.{
  ℕ, ◌≡◌, Bool, true, false, ◌&&◌, ◌||◌, not, Option, none, some, List, [], ◌∷◌, ◌++◌, Text, Word,
  text_Eq, Dict, lookup, insert, bytes, nat_eq, text_eq, to_lower, if◌then◌else◌, Result, ok, err,
  ◌>>=◌, int_lt, int_add, minus_one, format_int,
}
use go_quant_tick.Trade.{Time, DecimalOps, TradeEvent, new_trade_event, parse_decimal}
use go_quant_tick.Recovery.Seen.{SeenTradeIds, new_seen_trade_ids, add_seen}
use go_quant_tick.Exchanges.Protocol.{split_event_timestamp}
use go_quant_tick.Exchanges.Runtime.{Channel, send_trade}

abbrev pub coinbase_name : Text
coinbase_name = bytes "coinbase"

abbrev pub coinbase_subscription_buffer_limit : ℕ
coinbase_subscription_buffer_limit = 10000

abbrev pub coinbase_seen_trade_limit : ℕ
coinbase_seen_trade_limit = 10000

pub data CoinbaseError : Type 0 where
  parse_message : CoinbaseError
  protocol_error : (message reason : Text) → CoinbaseError
  missing_channel : CoinbaseError
  missing_product : Text → CoinbaseError
  unexpected_product : Text → CoinbaseError
  parse_price : CoinbaseError
  parse_size : CoinbaseError
  parse_time : CoinbaseError
  fetch_failed : CoinbaseError
  cursor_not_found : Word → CoinbaseError
  other_product : Text → CoinbaseError
  unexpected_trade : (expected got : Word) → CoinbaseError
  parse_after : Text → CoinbaseError
  did_not_advance : CoinbaseError
  too_many_pages : Word → CoinbaseError
  context_ended : CoinbaseError
  dial_failed : CoinbaseError
  read_failed : CoinbaseError
  acknowledgement_timed_out : CoinbaseError
  buffer_exceeded : CoinbaseError

-- The parts of the adapter that its operations read.
pub record Coinbase : Type 0 where
  pub symbols : List Text
  pub rest_url : Text
  pub last_ids : Dict Text Word
  pub seen : SeenTradeIds
  pub subscribed : Bool

unfoldable pub new_coinbase : List Text → Text → Coinbase
new_coinbase symbols rest_url = record {
  symbols = symbols;
  rest_url = rest_url;
  last_ids = [];
  seen = new_seen_trade_ids coinbase_seen_trade_limit;
  subscribed = false;
}

pub record CoinbaseParsedTrade (D : Type 0) : Type 0 where
  pub event : TradeEvent D
  pub trade_id : Word

pub record CoinbaseSubscriptionChannel : Type 0 where
  pub name : Text
  pub product_ids : List Text

pub record CoinbaseControlMessage : Type 0 where
  pub message_type : Text
  pub message : Text
  pub reason : Text
  pub channels : List CoinbaseSubscriptionChannel

pub record CoinbaseMatchMessage : Type 0 where
  pub message_type : Text
  pub trade_id : Word
  pub product_id : Text
  pub time : Text
  pub price : Text
  pub size : Text
  pub side : Text

-- `json.Unmarshal` into the structs of the package, and `time.Parse` of RFC 3339.
pub record CoinbaseFormats : Type 0 where
  pub control : Text → Option CoinbaseControlMessage
  pub match_message : Text → Option CoinbaseMatchMessage
  pub timestamp : Text → Option Time

-- `value, err := f(…)` behind which an error is returned
unfoldable pub expect {ℓ} : {A : Type ℓ} → CoinbaseError → Option A → Result CoinbaseError A
expect e none = err e
expect e (some a) = ok a

-- the products of the first channel with the matches
unfoldable pub matches_products : List CoinbaseSubscriptionChannel → Option (List Text)
matches_products [] = none
matches_products (channel ∷ channels) =
    let rest = matches_products channels in
    if text_eq channel.name (bytes "matches") then some channel.product_ids else rest

-- whether a text is one of a list, as the maps of `acceptSubscriptions` tell
unfoldable pub is_one_of : Text → List Text → Bool
is_one_of text [] = false
is_one_of text (first ∷ texts) = text_eq first text || is_one_of text texts

-- The first of the products that is none of the others. The source ranges over a map, so that it
-- may name another one.
unfoldable pub first_missing : List Text → List Text → Option Text
unfolding is_one_of
first_missing [] others = none
first_missing (product ∷ products) others =
    let rest = first_missing products others in
    if is_one_of product others then rest else some product

-- the comparison of the products that were asked for with those of the channel
unfoldable pub accept_products : Coinbase → List Text → Result CoinbaseError Coinbase
unfolding first_missing
accept_products c products = elim (first_missing c.symbols products) [
  | some product ↦ err (missing_product product)
  | none ↦ elim (first_missing products c.symbols) [
    | some product ↦ err (unexpected_product product)
    | none ↦ ok (record c { subscribed = true })
  ]
]

unfoldable pub accept_subscriptions :
    Coinbase → List CoinbaseSubscriptionChannel → Result CoinbaseError Coinbase
unfolding accept_products matches_products
accept_subscriptions c channels = elim (matches_products channels) [
  | none ↦ err missing_channel
  | some products ↦ accept_products c products
]

module _ (formats : CoinbaseFormats) where
  -- the adapter, and whether the message was one that is handled here
  dispatch_control : Coinbase → CoinbaseControlMessage → Result CoinbaseError (Coinbase × Bool)
  unfolding accept_subscriptions
  dispatch_control c msg =
      if text_eq msg.message_type (bytes "error")
      then err (protocol_error msg.message msg.reason)
      else if text_eq msg.message_type (bytes "subscriptions")
      then (accept_subscriptions c msg.channels >>= λ c'. ok (c', true))
      else ok (c, false)

  unfoldable pub parse_control_message : Coinbase → Text → Result CoinbaseError (Coinbase × Bool)
  unfolding expect dispatch_control
  parse_control_message c data' =
      expect parse_message (formats.control data') >>= dispatch_control c

  -- `none` where the message is no match
  unfoldable pub parse_coinbase_match_message :
      Text → Result CoinbaseError (Option CoinbaseMatchMessage)
  unfolding expect
  parse_coinbase_match_message data' = expect parse_message (formats.match_message data') >>= λ msg.
      ok (
        if text_eq msg.message_type (bytes "match") || text_eq msg.message_type (bytes "last_match")
        then some msg
        else none)

  module _ {D : Type 0} ⦃ops : DecimalOps D⦄ where
    match_trade : CoinbaseMatchMessage → Time → D → D → Time → CoinbaseParsedTrade D
    match_trade msg received_at price notional timestamp =
        let (micros, nanoseconds) = split_event_timestamp timestamp in
        record {
          event = new_trade_event (record {
            exchange = coinbase_name;
            uid = format_int msg.trade_id;
            symbol = msg.product_id;
            timestamp = micros;
            received_at = received_at;
            price = price;
            volume = none;
            notional = notional;
            tick_rule = if text_eq (to_lower msg.side) (bytes "sell") then 1 else minus_one;
            nanoseconds = nanoseconds;
            ticks = 0;
            is_sequential = false;
          });
          trade_id = msg.trade_id;
        }

    unfoldable pub parse_coinbase_trade :
        CoinbaseMatchMessage → Time → Result CoinbaseError (CoinbaseParsedTrade D)
    unfolding expect match_trade
    parse_coinbase_trade msg received_at = do
      price ← expect parse_price (parse_decimal msg.price)
      notional ← expect parse_size (parse_decimal msg.size)
      timestamp ← expect parse_time (formats.timestamp msg.time)
      ok (match_trade msg received_at price notional timestamp)

    unfoldable pub parse_coinbase_trade_message :
        Text → Time → Result CoinbaseError (Option (CoinbaseParsedTrade D))
    unfolding parse_coinbase_match_message parse_coinbase_trade
    parse_coinbase_trade_message data' received_at = parse_coinbase_match_message data' >>= λ found.
        elim found [
          | none ↦ ok none
          | some msg ↦ parse_coinbase_trade msg received_at >>= λ parsed. ok (some parsed)
        ]

follows : Option Word → Word → Bool
follows none trade_id = false
follows (some previous) trade_id = nat_eq trade_id (int_add previous 1)

raise_id : Option Word → Text → Word → Dict Text Word → Dict Text Word
raise_id none symbol trade_id last_ids = insert symbol trade_id last_ids
raise_id (some previous) symbol trade_id last_ids =
    if int_lt previous trade_id then insert symbol trade_id last_ids else last_ids

module _ {D : Type 0} where
  -- a trade that was not seen before
  emit_fresh : Coinbase × Channel D → CoinbaseParsedTrade D → (Coinbase × Channel D) × Bool
  unfolding follows raise_id
  emit_fresh (c, channel) parsed =
      let symbol = parsed.event.symbol in
      let previous = lookup symbol c.last_ids in
      let (channel', delivered) =
        send_trade channel
          (record parsed.event { is_sequential = follows previous parsed.trade_id }) in
      if not delivered then ((c, channel'), false) else (
        (record c { last_ids = raise_id previous symbol parsed.trade_id c.last_ids }, channel'),
        true,
      )

  -- `emitParsedTrade`; false where the context ends
  unfoldable pub emit_coinbase_trade :
      Coinbase × Channel D → CoinbaseParsedTrade D → (Coinbase × Channel D) × Bool
  unfolding emit_fresh
  emit_coinbase_trade (c, channel) parsed =
      let (seen, fresh) = add_seen c.seen parsed.event.symbol parsed.event.uid in
      let emitted = emit_fresh (record c { seen = seen }, channel) parsed in
      if not fresh then ((record c { seen = seen }, channel), true) else emitted
