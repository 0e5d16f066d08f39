-- ===== src/Exchanges/Binance/Protocol.antt =====
-- quanttick/exchanges/binance_protocol.go: the messages of the websockets.
use go_quant_tick.Common.{
  Bool, true, false, ◌||◌, not, Option, none, some, [], ◌++◌, Text, Word, text_Eq, Dict, lookup,
  bytes, nat_eq, text_eq, trim_space, to_lower, if◌then◌else◌, Result, ok, err, ◌>>=◌,
}
use go_quant_tick.Trade.{Time, DecimalOps, parse_decimal}
use go_quant_tick.Exchanges.Protocol.{Json}
use go_quant_tick.Exchanges.Binance.{
  Binance, BinanceError, BinanceTradeMessage, BinanceParsedTrade, parsed_trade, raise_last,
  binance_futures_name, binance_subscription_request_id, server_shutdown, parse_message,
  parse_envelope, missing_data, stream_mismatch, buyer_maker_envelope, missing_buyer_maker,
  parse_buyer_maker, parse_price, parse_quantity, parse_error_code, websocket_error,
  invalid_response, parse_response_id, unexpected_id, request_failed,
}

-- `binanceCombinedStreamMessage`
pub record CombinedStreamMessage : Type 0 where
  pub stream : Text
  pub payload : Text

-- `json.Unmarshal` into the two structs of the package.
pub record BinanceJson : Type 0 where
  pub combined : Text → Option CombinedStreamMessage
  pub trade : Text → Option BinanceTradeMessage

-- `value, err := f(…)` behind which an error is returned
unfoldable pub required {ℓ} : {A : Type ℓ} → BinanceError → Option A → Result BinanceError A
required e none = err e
required e (some a) = ok a

module _ ⦃json : Json⦄ where
  unfoldable pub binance_buyer_is_maker : Text → Result BinanceError Bool
  unfolding required
  binance_buyer_is_maker payload = do
    envelope ← required buyer_maker_envelope (json.object payload)
    raw ← required missing_buyer_maker (lookup (bytes "m") envelope)
    required parse_buyer_maker (json.boolean raw)

  event_type_of : Option Text → Option Text
  event_type_of none = none
  event_type_of (some raw) = if text_eq raw [] then none else json.text raw

  unfoldable pub binance_event_type : Text → Result BinanceError (Option Text)
  unfolding required event_type_of
  binance_event_type payload = do
    envelope ← required parse_envelope (json.object payload)
    ok (event_type_of (lookup (bytes "e") envelope))

  -- the answer to the subscription, behind the tests for errors of the venue
  parse_acknowledgement : Text → Option Text → Option Text → Result BinanceError Bool
  parse_acknowledgement data' none none = ok false
  parse_acknowledgement data' none (some raw_id) = err (invalid_response data')
  parse_acknowledgement data' (some raw_result) none = err (invalid_response data')
  parse_acknowledgement data' (some raw_result) (some raw_id) = elim (json.int64 raw_id) [
    | none ↦ err parse_response_id
    | some id ↦
        if not (nat_eq id binance_subscription_request_id)
        then err (unexpected_id id)
        else if not (text_eq (trim_space raw_result) (bytes "null"))
        then err (request_failed data')
        else ok true
  ]

  -- the text of an error, empty where it is missing or no string
  error_text : Option Text → Text
  error_text none = []
  error_text (some raw) = elim (json.text raw) [ none ↦ [] | some message ↦ message ]

  is_shutdown : Option Text → Bool
  is_shutdown none = false
  is_shutdown (some raw) = text_eq (trim_space raw) (bytes "\"serverShutdown\"")

  parse_code : Dict Text Text → Text → Result BinanceError Bool
  unfolding error_text
  parse_code envelope raw_code = elim (json.int64 raw_code) [
    | none ↦ err parse_error_code
    | some code ↦ err (websocket_error code (error_text (lookup (bytes "msg") envelope)))
  ]

  parse_response_fields : Text → Dict Text Text → Result BinanceError Bool
  unfolding is_shutdown parse_code parse_acknowledgement
  parse_response_fields data' envelope =
      if is_shutdown (lookup (bytes "e") envelope)
      then err server_shutdown
      else elim (lookup (bytes "code") envelope) [
        | some raw_code ↦ parse_code envelope raw_code
        | none ↦
            parse_acknowledgement data' (lookup (bytes "result") envelope)
              (lookup (bytes "id") envelope)
      ]

  unfoldable pub parse_binance_subscription_response : Text → Result BinanceError Bool
  unfolding required parse_response_fields
  parse_binance_subscription_response data' = do
    envelope ← required parse_message (json.object data')
    parse_response_fields data' envelope

module _ (decode : BinanceJson) where
  unwrap_combined : Text → CombinedStreamMessage → Result BinanceError (Text × Text)
  unwrap_combined data' envelope =
      if text_eq envelope.stream []
      then ok (data', [])
      else if text_eq envelope.payload [] || text_eq (trim_space envelope.payload) (bytes "null")
      then err (missing_data envelope.stream)
      else ok (envelope.payload, envelope.stream)

  -- `unwrapTradeMessage`: the message, and the stream if the message came in a combined one
  unfoldable pub unwrap_trade_message : Binance → Text → Result BinanceError (Text × Text)
  unfolding required unwrap_combined
  unwrap_trade_message b data' =
      if not (text_eq b.name binance_futures_name) then ok (data', []) else (do
        envelope ← required parse_message (decode.combined data')
        unwrap_combined data' envelope)

pub is_of_stream : Binance → Option Text → Bool
is_of_stream b none = false
is_of_stream b (some event_type) = text_eq event_type b.stream

-- the test of the stream's name against the symbol of the trade
unfoldable pub check_stream : Binance → Text → Text → Result BinanceError (Unit {0})
check_stream b combined_stream symbol =
    let expected = to_lower symbol ++ (bytes "@" ++ b.stream) in
    if text_eq combined_stream []
    then ok tt
    else if not (text_eq combined_stream expected)
    then err (stream_mismatch combined_stream expected)
    else ok tt

module _ {D : Type 0} ⦃ops : DecimalOps D⦄ where
  -- `buildParsedTrade`, with the map of last IDs that it leaves
  unfoldable pub build_parsed_trade :
      Binance
      → BinanceTradeMessage
      → Bool
      → Time
      → Dict Text Word
      → Result BinanceError (BinanceParsedTrade D × Dict Text Word)
  unfolding required parsed_trade raise_last
  build_parsed_trade b msg buyer_is_maker received_at last_ids = do
    price ← required parse_price (parse_decimal msg.price)
    notional ← required parse_quantity (parse_decimal msg.quantity)
    let parsed = parsed_trade b msg buyer_is_maker received_at last_ids price notional
    ok (parsed, raise_last msg.symbol parsed.trade_id last_ids)

  module _ ⦃json : Json⦄ (decode : BinanceJson) where
    unfoldable pub parse_trade_payload :
        Binance
        → Text
        → Text
        → Time
        → Dict Text Word
        → Result BinanceError (BinanceParsedTrade D × Dict Text Word)
    unfolding required check_stream binance_buyer_is_maker build_parsed_trade
    parse_trade_payload b payload combined_stream received_at last_ids = do
      msg ← required parse_message (decode.trade payload)
      _ ← check_stream b combined_stream msg.symbol
      buyer_is_maker ← binance_buyer_is_maker payload
      build_parsed_trade b msg buyer_is_maker received_at last_ids

    -- `parseTradeMessage`: `none` where the message is no trade of the stream
    unfoldable pub parse_trade_message :
        Binance
        → Text
        → Time
        → Dict Text Word
        → Result BinanceError (Option (BinanceParsedTrade D × Dict Text Word))
    unfolding unwrap_trade_message binance_event_type is_of_stream parse_trade_payload
    parse_trade_message b data' received_at last_ids = do
      unwrapped ← unwrap_trade_message decode b data'
      event_type ← binance_event_type unwrapped.0
      elim (is_of_stream b event_type) [
        | false ↦ ok none
        | true ↦ parse_trade_payload b unwrapped.0 unwrapped.1 received_at last_ids >>= λ parsed.
            ok (some parsed)
      ]
