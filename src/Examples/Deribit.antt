-- ===== src/Examples/Deribit.antt =====
-- quanttick/exchanges: the adapter of Deribit.
use go_quant_tick.Common.{
  ℕ, ◌+◌, ◌≡◌, refl, true, false, none, some, Option, List, [], ◌∷◌, ◌++◌, Text, Word, bytes,
  length, ok, err, Bool, text_Eq, text_eq, lookup, if◌then◌else◌, ◌≤◌, arith,
}
use go_quant_tick.Trade.{TradeEvent}
use go_quant_tick.Examples.Decimals.{nat_decimals, buy_1}
use go_quant_tick.Exchanges.Protocol.{Json}
use go_quant_tick.Exchanges.Runtime.{Attempt, answered, Channel, Read, frame, failure, Frame, taken}
use go_quant_tick.Exchanges.Deribit.Admitted.{emit_deribit_trades-admit_deribit_trades}
use go_quant_tick.Exchanges.Deribit.Session.{DeribitInput, run_deribit_sessions}
use go_quant_tick.Exchanges.Deribit.Sequential.{IsTracked}
use go_quant_tick.Exchanges.Deribit.Reconnected.{run_deribit_sessions-IsTracked}
use go_quant_tick.Exchanges.Deribit.{
  Deribit, DeribitFormats, new_deribit, emit_deribit_trades, DeribitError, DeribitTrade,
  DeribitParsedTrade, unexpected_sequence,
}
use go_quant_tick.Exchanges.Deribit.Protocol.{
  admit_deribit_trades, deribit_trade_channel, deribit_amount_is_base,
}
use go_quant_tick.Exchanges.Deribit.Recovery.{DeribitRecoveryEnvelope, recover_deribit_symbol}
use go_quant_tick.Exchanges.Deribit.Recovery.Sequence.{
  InSequence, recover_deribit_symbol-InSequence,
}

instance abbrev toy_json : Json
toy_json = record {
  object = λ payload. none;
  array = λ payload. none;
  text = λ payload. none;
  int64 = λ payload. none;
  boolean = λ payload. none;
}

abbrev instrument : Text
instrument = bytes "BTC-PERPETUAL"

abbrev numbered : Word → DeribitTrade
numbered sequence = record {
  trade_sequence = sequence;
  timestamp = 1;
  starbase_timestamp = 0;
  price = bytes "1";
  amount = bytes "1";
  direction = bytes "Sell";
  instrument_name = instrument;
}

abbrev page : List DeribitTrade → Attempt DeribitRecoveryEnvelope
page trades = answered (record {
  status_code = 200;
  header = λ name. [];
  retry_after = some 0;
  received_at = 5;
  body = some (record { error = none; trades = trades; has_more = true });
})

-- two pages, of which the second misses the sequence number 8
abbrev attempts : List (Attempt DeribitRecoveryEnvelope)
attempts = page (numbered 6 ∷ numbered 5 ∷ []) ∷ page (numbered 7 ∷ numbered 9 ∷ []) ∷ []

recover_deribit_symbol-InSequence_example :
    InSequence instrument 5 (recover_deribit_symbol {D = ℕ} instrument attempts 5).0
recover_deribit_symbol-InSequence_example =
    recover_deribit_symbol-InSequence ℕ instrument attempts 5

abbrev numbers : List (DeribitParsedTrade ℕ) → List Word
numbers [] = []
numbers (trade ∷ trades) = trade.sequence ∷ numbers trades

test_recovery :
    (let recovered = recover_deribit_symbol {D = ℕ} instrument attempts 5 in
      ◌≡◌ {A = List Word × Option DeribitError}
        (numbers recovered.0, recovered.1)
        (5 ∷ 6 ∷ 7 ∷ [], some (unexpected_sequence 8 9)))
unfolding recover_deribit_symbol go_quant_tick.Exchanges.Deribit.Protocol.parse_deribit_trade
    go_quant_tick.Exchanges.Deribit.Recovery.raw_less go_quant_tick.Common.stable_sort
    go_quant_tick.Common.int_lt go_quant_tick.Common.int_add go_quant_tick.Common.insert_by
    go_quant_tick.Trade.parse_decimal go_quant_tick.Common.trim_space
    go_quant_tick.Trade.new_trade_event go_quant_tick.Common.to_lower
    go_quant_tick.Exchanges.Deribit.Protocol.deribit_tick_rule
    go_quant_tick.Exchanges.Deribit.Recovery.in_front
    go_quant_tick.Exchanges.Protocol.parse_raw_decimal deribit_amount_is_base
    go_quant_tick.Common.contains_byte go_quant_tick.Common.split_text
test_recovery = refl

test_amount_is_base :
    (deribit_amount_is_base (bytes "BTC-25DEC26-100000-C") ≡ true)
    × (deribit_amount_is_base (bytes "BTC_USDC-PERPETUAL") ≡ true)
    × (deribit_amount_is_base instrument ≡ false)
unfolding deribit_amount_is_base go_quant_tick.Common.contains_byte go_quant_tick.Common.split_text
test_amount_is_base = (refl, refl, refl)

-- Messages that stand for the number of their bytes: an acknowledgement is empty, and any other has
-- the trade with that number.
abbrev toy_formats : DeribitFormats
toy_formats = record {
  envelope = λ payload.
      if text_eq payload []
      then some (record {
        id = 1;
        method = [];
        result = bytes "[]";
        channel = [];
        payload = [];
        error = none;
      })
      else some (record {
        id = 0;
        method = bytes "subscription";
        result = [];
        channel = deribit_trade_channel instrument;
        payload = payload;
        error = none;
      });
  trades = λ payload. some (numbered (length payload) ∷ []);
  channels = λ payload. some (deribit_trade_channel instrument ∷ []);
}

abbrev toy_frame : Text → Read
toy_frame payload =
    frame (record { payload = payload; received_at = 5; is_data = true; offer = taken })

abbrev toy_input : List Read → DeribitInput
toy_input reads = record {
  connected = true;
  reads = reads;
  offers = λ n. taken;
  attempts = λ symbol. [];
}

-- the trades 1 and 2, of which the first one comes before the acknowledgement, and 4 and 5 in a
-- second session, with 2 again
abbrev two_sessions : List DeribitInput
two_sessions =
    toy_input (
      toy_frame (bytes "a") ∷ toy_frame [] ∷ toy_frame (bytes "ab") ∷ failure false false true ∷ [])
    ∷ toy_input (
        toy_frame []
        ∷ toy_frame (bytes "ab")
        ∷ toy_frame (bytes "abcd")
        ∷ toy_frame (bytes "abcde")
        ∷ [])
    ∷ []

abbrev start : Deribit × Channel ℕ
start = (new_deribit (instrument ∷ []) [], record { sent = []; room = 10 })

start-IsTracked : IsTracked start
unfolding new_deribit lookup
start-IsTracked = record { tracked = λ symbol sequence h. cc; marked = tt }

run_deribit_sessions-IsTracked_example :
    IsTracked (run_deribit_sessions toy_formats start two_sessions).0
run_deribit_sessions-IsTracked_example =
    run_deribit_sessions-IsTracked toy_formats start two_sessions start-IsTracked

abbrev marks : List (TradeEvent ℕ) → List (Text × Bool)
marks [] = []
marks (event ∷ events) = (event.uid, event.is_sequential) ∷ marks events

test_sessions :
    marks (run_deribit_sessions toy_formats start two_sessions).0.1.sent
    ≡ (bytes "1", false) ∷ (bytes "2", true) ∷ (bytes "4", false) ∷ (bytes "5", true) ∷ []
unfolding run_deribit_sessions go_quant_tick.Exchanges.Deribit.Protocol.parse_deribit_trade
    go_quant_tick.Common.stable_sort go_quant_tick.Common.int_lt go_quant_tick.Common.int_add
    go_quant_tick.Common.insert_by go_quant_tick.Trade.parse_decimal go_quant_tick.Common.trim_space
    go_quant_tick.Trade.new_trade_event go_quant_tick.Common.to_lower
    go_quant_tick.Exchanges.Deribit.Protocol.deribit_tick_rule
    go_quant_tick.Exchanges.Protocol.parse_raw_decimal deribit_amount_is_base
    go_quant_tick.Common.contains_byte go_quant_tick.Common.split_text go_quant_tick.Common.lookup
    go_quant_tick.Common.insert go_quant_tick.Common.has_prefix go_quant_tick.Common.has_suffix
    go_quant_tick.Common.trim_prefix go_quant_tick.Common.trim_suffix
    go_quant_tick.Common.format_int go_quant_tick.Exchanges.Deribit.Protocol.parse_deribit_response
    go_quant_tick.Exchanges.Deribit.Protocol.parse_deribit_message new_deribit deribit_trade_channel
    go_quant_tick.Recovery.Seen.new_seen_trade_ids go_quant_tick.Exchanges.Coinbase.first_missing
    go_quant_tick.Recovery.Seen.add_key go_quant_tick.Exchanges.Deribit.emit_unseen
    go_quant_tick.Recovery.Seen.evict go_quant_tick.Recovery.Seen.seen_key
    go_quant_tick.Exchanges.Deribit.emit_deribit_trades
    go_quant_tick.Exchanges.Deribit.Protocol.accept_channels
    go_quant_tick.Exchanges.Deribit.next_in_sequence go_quant_tick.Exchanges.Deribit.raise_sequence
    go_quant_tick.Exchanges.Deribit.Protocol.has_symbol
    go_quant_tick.Exchanges.Deribit.Session.deribit_message
    go_quant_tick.Exchanges.Deribit.Session.run_deribit
    go_quant_tick.Exchanges.Deribit.Recovery.recover_deribit_trades
    go_quant_tick.Exchanges.Runtime.send_trade go_quant_tick.Recovery.Seen.add_seen
test_sessions = refl

abbrev numbered_trade : Text → Word → DeribitParsedTrade ℕ
numbered_trade uid sequence = record {
  event = record buy_1 { symbol = instrument; uid = uid };
  sequence = sequence;
}

-- two trades in a row, with the first one again, and one behind a gap
abbrev parsed_trades : List (DeribitParsedTrade ℕ)
parsed_trades =
    numbered_trade (bytes "1") 1
    ∷ numbered_trade (bytes "2") 2
    ∷ numbered_trade (bytes "1") 1
    ∷ numbered_trade (bytes "4") 4
    ∷ []

emit_deribit_trades-admit_deribit_trades_example :
    ((emit_deribit_trades (start.0, record { sent = []; room = 10 }) parsed_trades).0.0
      ≡ (admit_deribit_trades start.0 parsed_trades).0)
    × ((emit_deribit_trades (start.0, record { sent = []; room = 10 }) parsed_trades).0.1.sent
        ≡ [] ++ (admit_deribit_trades start.0 parsed_trades).1)
emit_deribit_trades-admit_deribit_trades_example =
    emit_deribit_trades-admit_deribit_trades start.0 [] 10 parsed_trades (omega arith)
