-- ===== src/Exchanges/Bitfinex/Recovery.antt =====
-- emitRecoveredTrade, recoverTrades and recoverSymbol of quanttick/exchanges/bitfinex_recovery.go.
use go_quant_tick.Common.{
  ℕ, zero, suc, Bool, true, false, ◌||◌, not, Option, none, some, List, [], ◌∷◌, ◌++◌, Text, Word,
  text_Eq, lookup, insert, nat_eq, text_eq, text_lt, trim_space, ltb, if◌then◌else◌, Result, ok,
  err, ◌>>=◌, stable_sort, int_lt, int_sub, parse_int64,
}
use go_quant_tick.Trade.{Time, DecimalOps, TradeEvent}
use go_quant_tick.Exchanges.Protocol.{Json}
use go_quant_tick.Exchanges.Runtime.{
  Channel, send_trade, Attempt, not_sent, answered, decode_recovery_response,
}
use go_quant_tick.Exchanges.Bitfinex.{
  Bitfinex, BitfinexError, BitfinexTradeUpdate, api_symbol, bitfinex_trade_is_sequential,
  new_bitfinex_trade_event, parse_recovered_id, fetch_failed, cursor_not_found, did_not_advance,
  too_many_pages, context_ended, is_old,
}
use go_quant_tick.Exchanges.Bitfinex.Messages.{parse_bitfinex_trade_update}

abbrev pub bitfinex_recovery_max_pages : ℕ
bitfinex_recovery_max_pages = 100

module _ {D : Type 0} where
  -- a recovered trade whose ID is read
  emit_recovered :
      Bitfinex D × Channel D → TradeEvent D → Word → (Bitfinex D × Channel D) × Option BitfinexError
  emit_recovered (b, channel) trade trade_id =
      if is_old b trade.symbol trade_id
      then ((b, channel), none)
      else (let (b', is_sequential) =
            bitfinex_trade_is_sequential b trade.symbol (lookup trade.symbol b.last_ids) trade_id in
          let (channel', delivered) =
            send_trade channel (record trade { is_sequential = is_sequential }) in
          if not delivered then ((b', channel'), some context_ended) else (
            (record b' { last_ids = insert trade.symbol trade_id b'.last_ids }, channel'),
            none,
          ))

  -- `emitRecoveredTrade`
  unfoldable pub emit_recovered_trade :
      Bitfinex D × Channel D → TradeEvent D → (Bitfinex D × Channel D) × Option BitfinexError
  unfolding emit_recovered
  emit_recovered_trade s trade = elim (parse_int64 trade.uid) [
    | none ↦ (s, some (parse_recovered_id trade.uid))
    | some trade_id ↦ emit_recovered s trade trade_id
  ]

  -- the ID of a trade, zero where the UID is none
  parsed_id : TradeEvent D → Word
  parsed_id trade = elim (parse_int64 trade.uid) [ none ↦ 0 | some trade_id ↦ trade_id ]

  unfoldable pub recovered_before : TradeEvent D → TradeEvent D → Bool
  unfolding parsed_id
  recovered_before left right =
      if not (nat_eq left.timestamp right.timestamp)
      then ltb left.timestamp right.timestamp
      else if not (text_eq left.symbol right.symbol)
      then text_lt left.symbol right.symbol
      else int_lt (parsed_id left) (parsed_id right)

  unfoldable pub id_before : TradeEvent D → TradeEvent D → Bool
  unfolding parsed_id
  id_before left right = int_lt (parsed_id left) (parsed_id right)

-- The attempts for one page, until an answer that is not about the rate.
unfoldable pub fetch_bitfinex_page :
    {B : Type 0} → List (Attempt B) → Result BitfinexError (B × Time) × List (Attempt B)
unfolding decode_recovery_response
fetch_bitfinex_page [] = (err context_ended, [])
fetch_bitfinex_page (not_sent ∷ attempts) = (err fetch_failed, attempts)
fetch_bitfinex_page (answered response ∷ attempts) =
    let again = fetch_bitfinex_page attempts in
    if nat_eq response.status_code 429
    then elim response.retry_after [ none ↦ (err fetch_failed, attempts) | some delay ↦ again ]
    else elim (decode_recovery_response response) [
      | none ↦ (err fetch_failed, attempts)
      | some body ↦ (ok (body, response.received_at), attempts)
    ]

-- What a page gives: the trades behind the cursor, the oldest time, and whether the cursor is there.
pub record PageScan (D : Type 0) : Type 0 where
  pub recovered : List (TradeEvent D)
  pub oldest_millis : Word
  pub found_cursor : Bool

-- the oldest time so far, in which zero stands for none
oldest_of : Word → Word → Word
oldest_of oldest_millis timestamp_millis =
    if nat_eq oldest_millis 0 || int_lt timestamp_millis oldest_millis
    then timestamp_millis
    else oldest_millis

module _ {D : Type 0} ⦃ops : DecimalOps D⦄ where
  -- the update that stands for a row with too few fields
  filled : Option (BitfinexTradeUpdate D) → BitfinexTradeUpdate D
  filled (some update) = update
  filled none = record {
    trade_id = 0;
    timestamp_millis = 0;
    notional = ops.zero_value;
    price = ops.zero_value;
    tick_rule = 0;
    received_at = 0;
  }

  -- a row of a page
  unfoldable pub scan_update : Text → Word → BitfinexTradeUpdate D → PageScan D → PageScan D
  unfolding oldest_of
  scan_update symbol cursor update scan =
      let oldest = oldest_of scan.oldest_millis update.timestamp_millis in
      if nat_eq update.trade_id cursor
      then record scan { oldest_millis = oldest; found_cursor = true }
      else if int_lt cursor update.trade_id
      then record scan {
        oldest_millis = oldest;
        recovered = scan.recovered ++ new_bitfinex_trade_event symbol update true ∷ [];
      }
      else record scan { oldest_millis = oldest }

  module _ ⦃json : Json⦄ where
    -- the loop over the rows of a page
    unfoldable pub scan_page :
        Text → Word → List Text → Time → PageScan D → Result BitfinexError (PageScan D)
    unfolding parse_bitfinex_trade_update filled scan_update
    scan_page symbol cursor [] received_at scan = ok scan
    scan_page symbol cursor (payload ∷ payloads) received_at scan =
        let next = scan_page symbol cursor payloads received_at in
        elim (parse_bitfinex_trade_update payload received_at) [
          | err e ↦ err e
          | ok update ↦ next (scan_update symbol cursor (filled update) scan)
        ]

    -- what follows a page, with the loop behind it as a function of the end and the trades so far
    after_page :
        (Word → List (TradeEvent D) → Result BitfinexError (List (TradeEvent D)))
        → Word
        → PageScan D
        → Result BitfinexError (List (TradeEvent D))
    after_page next end_millis scan =
        if scan.found_cursor
        then ok (stable_sort id_before scan.recovered)
        else if not (int_lt 0 scan.oldest_millis)
            || nat_eq (int_sub scan.oldest_millis 1) end_millis
        then err did_not_advance
        else next (int_sub scan.oldest_millis 1) scan.recovered

    answer_page :
        (Word → List (TradeEvent D) → Result BitfinexError (List (TradeEvent D)))
        → Text
        → Word
        → Word
        → List (TradeEvent D)
        → Result BitfinexError (List Text × Time)
        → Result BitfinexError (List (TradeEvent D))
    unfolding scan_page after_page
    answer_page next symbol cursor end_millis recovered (err e) = err e
    answer_page next symbol cursor end_millis recovered (ok ([], received_at)) =
        err (cursor_not_found cursor)
    answer_page next symbol cursor end_millis recovered (ok (payload ∷ payloads, received_at)) =
        scan_page symbol cursor (payload ∷ payloads) received_at
          (record { recovered = recovered; oldest_millis = 0; found_cursor = false })
        >>= after_page next end_millis

    -- the loop of `recoverSymbol` over the pages that are left
    unfoldable pub recover_bitfinex_pages :
        ℕ
        → List (Attempt (List Text))
        → Text
        → Word
        → Word
        → List (TradeEvent D)
        → Result BitfinexError (List (TradeEvent D))
    unfolding answer_page fetch_bitfinex_page
    recover_bitfinex_pages zero attempts symbol cursor end_millis recovered =
        err (too_many_pages cursor)
    recover_bitfinex_pages (suc pages) attempts symbol cursor end_millis recovered =
        let answer = fetch_bitfinex_page attempts in
        answer_page (recover_bitfinex_pages pages answer.1 symbol cursor) symbol cursor end_millis
          recovered answer.0

    -- `recoverSymbol`
    unfoldable pub recover_bitfinex_symbol :
        List (Attempt (List Text)) → Text → Word → Result BitfinexError (List (TradeEvent D))
    unfolding recover_bitfinex_pages
    recover_bitfinex_symbol attempts symbol cursor =
        recover_bitfinex_pages bitfinex_recovery_max_pages attempts symbol cursor 0 []

    -- the loop of `recoverTrades` over the symbols; a failure marks the gap of its symbol
    unfoldable pub recover_bitfinex_symbols :
        Bitfinex D
        → (Text → List (Attempt (List Text)))
        → List Text
        → Bitfinex D × List (TradeEvent D) × List BitfinexError
    unfolding recover_bitfinex_symbol
    recover_bitfinex_symbols b attempts [] = (b, [], [])
    recover_bitfinex_symbols b attempts (requested ∷ symbols) =
        let symbol = api_symbol requested in
        elim (lookup symbol b.last_ids) [
          | none ↦ recover_bitfinex_symbols b attempts symbols
          | some cursor ↦ elim (recover_bitfinex_symbol (attempts symbol) symbol cursor) [
            | ok rows ↦
                let (b', more, errors) = recover_bitfinex_symbols b attempts symbols in
                (b', rows ++ more, errors)
            | err e ↦
                let gap = record b { recovery_gaps = insert symbol true b.recovery_gaps } in
                let (b', more, errors) = recover_bitfinex_symbols gap attempts symbols in
                (b', more, e ∷ errors)
          ]
        ]

    -- `recoverTrades`
    unfoldable pub recover_bitfinex_trades :
        Bitfinex D
        → (Text → List (Attempt (List Text)))
        → Bitfinex D × List (TradeEvent D) × List BitfinexError
    unfolding recover_bitfinex_symbols recovered_before
    recover_bitfinex_trades b attempts = elim b.last_ids [
      | [] ↦ (b, [], [])
      | entry ∷ rest ↦
          if text_eq (trim_space b.rest_url) []
          then (b, [], [])
          else (let (b', rows, errors) = recover_bitfinex_symbols b attempts b.symbols in
              (b', stable_sort recovered_before rows, errors))
    ]
