-- ===== src/Exchanges/Deribit/Protocol.antt =====
-- quanttick/exchanges/deribit_protocol.go: the messages of Deribit.
use go_quant_tick.Common.{
  Bool, true, false, ◌&&◌, ◌||◌, not, Option, none, some, List, [], ◌∷◌, ◌++◌, Text, Word, text_Eq,
  lookup, bytes, nat_eq, text_eq, to_lower, trim_prefix, trim_suffix, has_prefix, has_suffix,
  contains_byte, split_text, if◌then◌else◌, Result, ok, err, ◌>>=◌, int_lt, minus_one, format_int,
  map, stable_sort,
}
use go_quant_tick.Trade.{Time, DecimalOps, TradeEvent, new_trade_event}
use go_quant_tick.Recovery.Seen.{add_seen}
use go_quant_tick.Exchanges.Protocol.{
  Json, parse_raw_decimal, split_event_timestamp, unix_milli, unix_nano,
}
use go_quant_tick.Exchanges.Coinbase.{first_missing}
use go_quant_tick.Exchanges.Deribit.{
  Deribit, DeribitError, DeribitFormats, DeribitEnvelope, DeribitTrade, DeribitParsedTrade,
  deribit_name, deribit_subscription_request_id, wanted, next_in_sequence, raise_sequence,
  parse_message, websocket_error, unexpected_channel, parse_trades, other_instrument,
  invalid_sequence, parse_price, parse_amount, invalid_direction, division_by_zero, unexpected_id,
  parse_response, missing_channel, extra_channel,
}

unfoldable pub deribit_trade_channel : Text → Text
deribit_trade_channel symbol = bytes "trades." ++ (symbol ++ bytes ".100ms")

fourth_of : List Text → Option Text
fourth_of (a ∷ b ∷ c ∷ d ∷ []) = some d
fourth_of parts = none

has_text : Text → List Text → Bool
has_text text [] = false
has_text text (first ∷ texts) = text_eq first text || has_text text texts

-- `hasSymbol`
unfoldable pub has_symbol : Deribit → Text → Bool
unfolding has_text
has_symbol d symbol = has_text symbol d.symbols

-- whether the amount of a trade counts the base of the instrument
unfoldable pub deribit_amount_is_base : Text → Bool
unfolding fourth_of
deribit_amount_is_base symbol =
    contains_byte b'_' symbol || elim (fourth_of (split_text b'-' symbol)) [
      | none ↦ false
      | some kind ↦ text_eq kind (bytes "C") || text_eq kind (bytes "P")
    ]

unfoldable pub deribit_tick_rule : Text → Result DeribitError Word
deribit_tick_rule direction =
    if text_eq (to_lower direction) (bytes "buy")
    then ok 1
    else if text_eq (to_lower direction) (bytes "sell")
    then ok minus_one
    else err (invalid_direction direction)

module _ {D : Type 0} ⦃ops : DecimalOps D⦄ where
  -- the size of a trade, and its volume where the amount is one
  sizes_of : Text → D → D → Result DeribitError (D × Option D)
  sizes_of symbol amount price =
      if deribit_amount_is_base symbol
      then ok (amount, none)
      else if ops.is_zero price
      then err division_by_zero
      else ok (ops.div amount price, some amount)

  deribit_event : DeribitTrade → Time → D → Word → D × Option D → DeribitParsedTrade D
  deribit_event raw received_at price tick_rule (notional, volume) =
      let at =
        if int_lt 0 raw.starbase_timestamp
        then unix_nano raw.starbase_timestamp
        else unix_milli raw.timestamp in
      let (micros, nanoseconds) = split_event_timestamp at in
      record {
        event = new_trade_event (record {
          exchange = deribit_name;
          uid = format_int raw.trade_sequence;
          symbol = raw.instrument_name;
          timestamp = micros;
          received_at = received_at;
          price = price;
          volume = volume;
          notional = notional;
          tick_rule = tick_rule;
          nanoseconds = nanoseconds;
          ticks = 0;
          is_sequential = false;
        });
        sequence = raw.trade_sequence;
      }

  module _ ⦃json : Json⦄ where
    unfoldable pub parse_deribit_trade :
        DeribitTrade → Time → Result DeribitError (DeribitParsedTrade D)
    unfolding wanted sizes_of deribit_event
    parse_deribit_trade raw received_at =
        if not (int_lt 0 raw.trade_sequence)
        then err (invalid_sequence raw.trade_sequence)
        else (wanted parse_price (parse_raw_decimal raw.price) >>= λ price.
            wanted parse_amount (parse_raw_decimal raw.amount) >>= λ amount.
            deribit_tick_rule raw.direction >>= λ tick_rule.
            sizes_of raw.instrument_name amount price >>= λ sizes.
            ok (deribit_event raw received_at price tick_rule sizes))

    -- the loop over the trades of a message
    unfoldable pub parse_deribit_trades :
        Text → List DeribitTrade → Time → Result DeribitError (List (DeribitParsedTrade D))
    unfolding parse_deribit_trade
    parse_deribit_trades symbol [] received_at = ok []
    parse_deribit_trades symbol (raw ∷ trades) received_at =
        let later = parse_deribit_trades symbol trades received_at in
        if not (text_eq raw.instrument_name symbol)
        then err (other_instrument raw.instrument_name)
        else (parse_deribit_trade raw received_at >>= λ parsed.
            later >>= λ rest. ok (parsed ∷ rest))

  unfoldable pub sequence_less : DeribitParsedTrade D → DeribitParsedTrade D → Bool
  sequence_less left right = int_lt left.sequence right.sequence

  module _ ⦃json : Json⦄ (formats : DeribitFormats) where
    -- the trades of a subscription, behind the checks of its channel
    unfoldable pub channel_trades :
        Deribit → DeribitEnvelope → Time → Result DeribitError (List (DeribitParsedTrade D))
    unfolding wanted parse_deribit_trades sequence_less
    channel_trades d envelope received_at =
        let symbol =
          trim_suffix (trim_prefix envelope.channel (bytes "trades.")) (bytes ".100ms") in
        if not (has_prefix envelope.channel (bytes "trades."))
          || not (has_suffix envelope.channel (bytes ".100ms"))
        then ok []
        else if not (has_symbol d symbol)
        then err (unexpected_channel envelope.channel)
        else (wanted parse_trades (formats.trades envelope.payload) >>= λ raw.
            parse_deribit_trades symbol raw received_at >>= λ parsed.
            ok (stable_sort sequence_less parsed))

    unfoldable pub envelope_trades :
        Deribit → DeribitEnvelope → Time → Result DeribitError (List (DeribitParsedTrade D))
    unfolding channel_trades
    envelope_trades d envelope received_at = elim envelope.error [
      | some (code, message) ↦ err (websocket_error code message)
      | none ↦
          if not (text_eq envelope.method (bytes "subscription"))
          then ok []
          else channel_trades d envelope received_at
    ]

    -- `parseTradeMessage`
    unfoldable pub parse_deribit_message :
        Deribit → Text → Time → Result DeribitError (List (DeribitParsedTrade D))
    unfolding wanted envelope_trades
    parse_deribit_message d data' received_at =
        wanted parse_message (formats.envelope data') >>= λ envelope.
        envelope_trades d envelope received_at

-- the comparison of the channels that were asked for with those of the answer
unfoldable pub accept_channels : Deribit → List Text → Result DeribitError Bool
accept_channels d channels =
    let expected = map deribit_trade_channel d.symbols in
    elim (first_missing expected channels) [
      | some channel ↦ err (missing_channel channel)
      | none ↦ elim (first_missing channels expected) [
        | some channel ↦ err (extra_channel channel)
        | none ↦ ok true
      ]
    ]

module _ (formats : DeribitFormats) where
  envelope_response : Deribit → DeribitEnvelope → Result DeribitError Bool
  unfolding wanted accept_channels
  envelope_response d envelope = elim envelope.error [
    | some (code, message) ↦ err (websocket_error code message)
    | none ↦
        if nat_eq envelope.id 0 && text_eq envelope.result []
        then ok false
        else if not (nat_eq envelope.id deribit_subscription_request_id)
        then err (unexpected_id envelope.id)
        else (wanted parse_response (formats.channels envelope.result) >>= accept_channels d)
  ]

  -- `parseSubscriptionResponse`
  unfoldable pub parse_deribit_response : Deribit → Text → Result DeribitError Bool
  unfolding wanted envelope_response
  parse_deribit_response d data' =
      wanted parse_message (formats.envelope data') >>= envelope_response d

module _ {D : Type 0} where
  -- the loop of `ParseTradeMessage`, which leaves out the trades that were seen before
  unfoldable pub admit_deribit_trades :
      Deribit → List (DeribitParsedTrade D) → Deribit × List (TradeEvent D)
  unfolding next_in_sequence raise_sequence
  admit_deribit_trades d [] = (d, [])
  admit_deribit_trades d (parsed ∷ trades) =
      let symbol = parsed.event.symbol in
      let (seen, fresh) = add_seen d.seen symbol parsed.event.uid in
      let previous = lookup symbol d.last_sequences in
      let event = record parsed.event {
        is_sequential = next_in_sequence previous parsed.sequence;
      } in
      let raised = raise_sequence previous symbol parsed.sequence d.last_sequences in
      let d' = record d {
        seen = seen;
        last_sequences = if fresh then raised else d.last_sequences;
      } in
      let (after, events) = admit_deribit_trades d' trades in
      (after, if fresh then event ∷ events else events)

  -- `ParseTradeMessage`
  unfoldable pub parse_deribit_trade_message :
      ⦃ops : DecimalOps D⦄
      → ⦃json : Json⦄ → DeribitFormats
      → Deribit
      → Text
      → Time
      → Result DeribitError (Deribit × List (TradeEvent D))
  unfolding parse_deribit_message admit_deribit_trades
  parse_deribit_trade_message formats d data' received_at =
      parse_deribit_message formats d data' received_at >>= λ parsed.
      ok (admit_deribit_trades d parsed)
