-- ===== src/Exchanges/Deribit.antt =====
-- quanttick/exchanges/deribit.go, with the structs of quanttick/exchanges/deribit_protocol.go: the
-- adapter of Deribit, which goes by the sequence numbers of the trades of an instrument.
pub mod Protocol
pub mod Recovery
pub mod Session
pub mod Sequential
pub mod Numbered
pub mod Reconnected
pub mod Admitted
use go_quant_tick.Common.{
  ℕ, zero, Bool, true, false, not, Option, none, some, List, [], ◌∷◌, Text, Word, text_Eq, Dict,
  lookup, insert, bytes, nat_eq, if◌then◌else◌, Result, ok, err, int_lt, int_add,
}
use go_quant_tick.Trade.{TradeEvent}
use go_quant_tick.Recovery.Seen.{SeenTradeIds, new_seen_trade_ids, add_seen}
use go_quant_tick.Exchanges.Runtime.{Channel, send_trade}

abbrev pub deribit_name : Text
deribit_name = bytes "deribit"

abbrev pub deribit_seen_trade_limit : ℕ
deribit_seen_trade_limit = 10000

abbrev pub deribit_subscription_buffer_limit : ℕ
deribit_subscription_buffer_limit = 10000

abbrev pub deribit_subscription_request_id : Word
deribit_subscription_request_id = 1

-- The package for decimals panics on a division by zero.
pub data DeribitError : Type 0 where
  parse_message : DeribitError
  websocket_error : Word → Text → DeribitError
  unexpected_channel : Text → DeribitError
  parse_trades : DeribitError
  other_instrument : Text → DeribitError
  invalid_sequence : Word → DeribitError
  parse_price : DeribitError
  parse_amount : DeribitError
  invalid_direction : Text → DeribitError
  division_by_zero : DeribitError
  unexpected_id : Word → DeribitError
  parse_response : DeribitError
  missing_channel : Text → DeribitError
  extra_channel : Text → DeribitError
  buffer_exceeded : DeribitError
  dial_failed : DeribitError
  read_failed : DeribitError
  acknowledgement_timed_out : DeribitError
  context_ended : DeribitError
  fetch_failed : DeribitError
  more_without_trades : DeribitError
  unexpected_sequence : (expected got : Word) → DeribitError
  too_many_pages : DeribitError

-- The parts of the adapter that its operations read.
pub record Deribit : Type 0 where
  pub symbols : List Text
  pub rest_url : Text
  pub last_sequences : Dict Text Word
  pub seen : SeenTradeIds

unfoldable pub new_deribit : List Text → Text → Deribit
new_deribit symbols rest_url = record {
  symbols = symbols;
  rest_url = rest_url;
  last_sequences = [];
  seen = new_seen_trade_ids deribit_seen_trade_limit;
}

pub record DeribitParsedTrade (D : Type 0) : Type 0 where
  pub event : TradeEvent D
  pub sequence : Word

pub record DeribitTrade : Type 0 where
  pub trade_sequence : Word
  pub timestamp : Word
  pub starbase_timestamp : Word
  pub price : Text
  pub amount : Text
  pub direction : Text
  pub instrument_name : Text

-- `deribitEnvelope`, with the code and the message of its error, if it has one
pub record DeribitEnvelope : Type 0 where
  pub id : Word
  pub method : Text
  pub result : Text
  pub channel : Text
  pub payload : Text
  pub error : Option (Word × Text)

-- `json.Unmarshal` into the structs of the package, and into a list of strings.
pub record DeribitFormats : Type 0 where
  pub envelope : Text → Option DeribitEnvelope
  pub trades : Text → Option (List DeribitTrade)
  pub channels : Text → Option (List Text)

-- `value, err := f(…)` behind which an error is returned
unfoldable pub wanted {ℓ} : {A : Type ℓ} → DeribitError → Option A → Result DeribitError A
wanted e none = err e
wanted e (some a) = ok a

unfoldable pub next_in_sequence : Option Word → Word → Bool
next_in_sequence none sequence = false
next_in_sequence (some previous) sequence = nat_eq sequence (int_add previous 1)

unfoldable pub raise_sequence : Option Word → Text → Word → Dict Text Word → Dict Text Word
raise_sequence none symbol sequence last_sequences = insert symbol sequence last_sequences
raise_sequence (some previous) symbol sequence last_sequences =
    if int_lt previous sequence then insert symbol sequence last_sequences else last_sequences

module _ {D : Type 0} where
  -- a trade that was not seen before
  unfoldable pub emit_unseen :
      Deribit × Channel D → DeribitParsedTrade D → (Deribit × Channel D) × Bool
  unfolding next_in_sequence raise_sequence
  emit_unseen (d, channel) parsed =
      let symbol = parsed.event.symbol in
      let previous = lookup symbol d.last_sequences in
      let (channel', delivered) =
        send_trade channel
          (record parsed.event { is_sequential = next_in_sequence previous parsed.sequence }) in
      if not delivered then ((d, channel'), false) else (
        (
          record d {
            last_sequences = raise_sequence previous symbol parsed.sequence d.last_sequences;
          },
          channel',
        ),
        true,
      )

  -- `emitParsedTrade`; false where the context ends
  unfoldable pub emit_deribit_trade :
      Deribit × Channel D → DeribitParsedTrade D → (Deribit × Channel D) × Bool
  emit_deribit_trade (d, channel) parsed =
      let (seen, fresh) = add_seen d.seen parsed.event.symbol parsed.event.uid in
      let emitted = emit_unseen (record d { seen = seen }, channel) parsed in
      if not fresh then ((record d { seen = seen }, channel), true) else emitted

  -- the loops of `run`, which return at the first trade that is not delivered
  unfoldable pub emit_deribit_trades :
      Deribit × Channel D → List (DeribitParsedTrade D) → (Deribit × Channel D) × Bool
  unfolding emit_deribit_trade
  emit_deribit_trades s [] = (s, true)
  emit_deribit_trades s (parsed ∷ trades) =
      let (s', delivered) = emit_deribit_trade s parsed in
      let after = emit_deribit_trades s' trades in if delivered then after else (s', false)
