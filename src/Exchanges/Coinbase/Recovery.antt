-- ===== src/Exchanges/Coinbase/Recovery.antt =====
-- quanttick/exchanges/coinbase_recovery.go: the trades that were missed, fetched page by page with
-- the newest first, back to the last one that was emitted.
pub mod Consecutive
use go_quant_tick.Common.{
  ℕ, zero, suc, ◌+◌, ◌≡◌, Bool, true, false, ◌&&◌, ◌||◌, not, Option, none, some, List, [], ◌∷◌,
  ◌++◌, Text, Word, text_Eq, Dict, lookup, bytes, nat_eq, nat_eq_iff, text_eq, text_lt, trim_space,
  ltb, if◌then◌else◌, Result, ok, err, ◌>>=◌, both_ok, stable_sort, int_lt, int_add, parse_int64,
  Bool-cases, inl, inr, refl,
}
use go_quant_tick.Trade.{Time, DecimalOps, TradeEvent}
use go_quant_tick.Exchanges.Runtime.{
  HttpResponse, Attempt, not_sent, answered, decode_recovery_response,
}
use go_quant_tick.Exchanges.Coinbase.{
  Coinbase, CoinbaseError, CoinbaseFormats, CoinbaseMatchMessage, CoinbaseParsedTrade,
  parse_coinbase_trade, fetch_failed, cursor_not_found, other_product, unexpected_trade,
  parse_after, did_not_advance, too_many_pages, context_ended,
}

abbrev pub coinbase_recovery_max_pages : ℕ
coinbase_recovery_max_pages = 100

-- The attempts for one page, until an answer that is not about the rate: the rows, the header with
-- the next cursor, and the time.
unfoldable pub fetch_coinbase_page :
    {B : Type 0} → List (Attempt B) → Result CoinbaseError (B × Text × Time) × List (Attempt B)
unfolding decode_recovery_response
fetch_coinbase_page [] = (err context_ended, [])
fetch_coinbase_page (not_sent ∷ attempts) = (err fetch_failed, attempts)
fetch_coinbase_page (answered response ∷ attempts) =
    let again = fetch_coinbase_page attempts in
    if nat_eq response.status_code 429
    then elim response.retry_after [ none ↦ (err fetch_failed, attempts) | some delay ↦ again ]
    else elim (decode_recovery_response response) [
      | none ↦ (err fetch_failed, attempts)
      | some body ↦ (
        ok (body, trim_space (response.header (bytes "CB-AFTER")), response.received_at),
        attempts,
      )
    ]

-- What a page gives: the result, where the cursor is on it, or the trades so far and its oldest ID.
pub data PageEnd (D : Type 0) : Type 0 where
  found : List (CoinbaseParsedTrade D) → PageEnd D
  passed : List (CoinbaseParsedTrade D) → Word → PageEnd D

module _ {D : Type 0} where
  unfoldable pub id_less : CoinbaseParsedTrade D → CoinbaseParsedTrade D → Bool
  id_less left right = int_lt left.trade_id right.trade_id

  -- the loop over the trades in the order of their IDs, which lets through only the next one
  unfoldable pub check_consecutive :
      Word → List (CoinbaseParsedTrade D) → Result CoinbaseError (Unit {0})
  check_consecutive expected [] = ok tt
  check_consecutive expected (parsed ∷ trades) =
      let rest = check_consecutive (int_add expected 1) trades in
      if not (nat_eq parsed.trade_id expected)
      then err (unexpected_trade expected parsed.trade_id)
      else rest

  -- what is returned when the cursor is found
  unfoldable pub at_cursor :
      Word → List (CoinbaseParsedTrade D) → Result CoinbaseError (List (CoinbaseParsedTrade D))
  unfolding check_consecutive id_less
  at_cursor cursor newest_first =
      let trades = stable_sort id_less newest_first in
      check_consecutive (int_add cursor 1) trades >>= λ _. ok trades

  unfoldable pub recovered_order : CoinbaseParsedTrade D → CoinbaseParsedTrade D → Bool
  recovered_order left right =
      if not (nat_eq left.event.timestamp right.event.timestamp)
      then ltb left.event.timestamp right.event.timestamp
      else if not (text_eq left.event.symbol right.event.symbol)
      then text_lt left.event.symbol right.event.symbol
      else int_lt left.trade_id right.trade_id

-- the oldest ID so far, in which zero stands for none
unfoldable pub older : Word → Word → Word
older oldest_id trade_id =
    if nat_eq oldest_id 0 || int_lt trade_id oldest_id then trade_id else oldest_id

-- the product of a row, which is that of the request where the row has none
unfoldable pub row_product : Text → CoinbaseMatchMessage → CoinbaseMatchMessage
row_product symbol payload =
    if text_eq payload.product_id [] then record payload { product_id = symbol } else payload

-- the cursor of the next page: that of the header, or the oldest ID
unfoldable pub next_after : Text → Word → Result CoinbaseError Word
next_after header oldest_id =
    if text_eq header []
    then ok oldest_id
    else elim (parse_int64 header) [ none ↦ err (parse_after header) | some after ↦ ok after ]

module _ {D : Type 0} ⦃ops : DecimalOps D⦄ (formats : CoinbaseFormats) (symbol : Text)
    (cursor : Word) where
  -- a row that has the product of the request; `next` goes on with the rows behind it
  unfoldable pub scan_row :
      (Word → List (CoinbaseParsedTrade D) → Result CoinbaseError (PageEnd D))
      → CoinbaseMatchMessage
      → Time
      → Word
      → List (CoinbaseParsedTrade D)
      → Result CoinbaseError (PageEnd D)
  unfolding older
  scan_row next payload received_at oldest_id newest_first =
      let oldest = older oldest_id payload.trade_id in
      if nat_eq payload.trade_id cursor
      then (at_cursor cursor newest_first >>= λ trades. ok (found trades))
      else if int_lt payload.trade_id cursor
      then next oldest newest_first
      else (parse_coinbase_trade formats payload received_at >>= λ parsed.
          next oldest (newest_first ++ parsed ∷ []))

  -- the loop over the rows of a page
  unfoldable pub scan_rows :
      List CoinbaseMatchMessage
      → Time
      → Word
      → List (CoinbaseParsedTrade D)
      → Result CoinbaseError (PageEnd D)
  unfolding row_product scan_row
  scan_rows [] received_at oldest_id newest_first = ok (passed newest_first oldest_id)
  scan_rows (payload ∷ payloads) received_at oldest_id newest_first =
      let row = row_product symbol payload in
      let handled =
        scan_row (scan_rows payloads received_at) row received_at oldest_id newest_first in
      if not (text_eq row.product_id symbol) then err (other_product row.product_id) else handled

  -- what follows a page; `next` goes on with the pages behind it
  unfoldable pub after_rows :
      (Word → List (CoinbaseParsedTrade D) → Result CoinbaseError (List (CoinbaseParsedTrade D)))
      → Text
      → Word
      → PageEnd D
      → Result CoinbaseError (List (CoinbaseParsedTrade D))
  unfolding next_after
  after_rows next header previous (found trades) = ok trades
  after_rows next header previous (passed newest_first oldest_id) =
      next_after header oldest_id >>= λ after.
      if not (int_lt 0 after) || nat_eq after previous
      then err did_not_advance
      else next after newest_first

  unfoldable pub answer_rows :
      (Word → List (CoinbaseParsedTrade D) → Result CoinbaseError (List (CoinbaseParsedTrade D)))
      → Word
      → List (CoinbaseParsedTrade D)
      → Result CoinbaseError (List CoinbaseMatchMessage × Text × Time)
      → Result CoinbaseError (List (CoinbaseParsedTrade D))
  unfolding scan_rows after_rows
  answer_rows next after newest_first (err e) = err e
  answer_rows next after newest_first (ok ([], header, received_at)) = err (cursor_not_found cursor)
  answer_rows next after newest_first (ok (payload ∷ payloads, header, received_at)) =
      scan_rows (payload ∷ payloads) received_at 0 newest_first >>= after_rows next header after

  -- the loop of `recoverSymbol` over the pages that are left
  unfoldable pub recover_coinbase_pages :
      ℕ
      → List (Attempt (List CoinbaseMatchMessage))
      → Word
      → List (CoinbaseParsedTrade D)
      → Result CoinbaseError (List (CoinbaseParsedTrade D))
  unfolding answer_rows fetch_coinbase_page
  recover_coinbase_pages zero attempts after newest_first = err (too_many_pages cursor)
  recover_coinbase_pages (suc pages) attempts after newest_first =
      let answer = fetch_coinbase_page attempts in
      answer_rows (recover_coinbase_pages pages answer.1) after newest_first answer.0

  -- `recoverSymbol`
  unfoldable pub recover_coinbase_symbol :
      List (Attempt (List CoinbaseMatchMessage))
      → Result CoinbaseError (List (CoinbaseParsedTrade D))
  unfolding recover_coinbase_pages
  recover_coinbase_symbol attempts =
      recover_coinbase_pages coinbase_recovery_max_pages attempts 0 []

module _ {D : Type 0} ⦃ops : DecimalOps D⦄ (formats : CoinbaseFormats) where
  -- the loop of `recoverTrades` over the symbols
  unfoldable pub recover_coinbase_symbols :
      Coinbase
      → (Text → List (Attempt (List CoinbaseMatchMessage)))
      → List Text
      → List (CoinbaseParsedTrade D) × List CoinbaseError
  unfolding recover_coinbase_symbol
  recover_coinbase_symbols c attempts [] = ([], [])
  recover_coinbase_symbols c attempts (symbol ∷ symbols) =
      let (more, errors) = recover_coinbase_symbols c attempts symbols in
      elim (lookup symbol c.last_ids) [
        | none ↦ (more, errors)
        | some cursor ↦ elim (recover_coinbase_symbol formats symbol cursor (attempts symbol)) [
          | ok rows ↦ (rows ++ more, errors)
          | err e ↦ (more, e ∷ errors)
        ]
      ]

  -- `recoverTrades`
  unfoldable pub recover_coinbase_trades :
      Coinbase
      → (Text → List (Attempt (List CoinbaseMatchMessage)))
      → List (CoinbaseParsedTrade D) × List CoinbaseError
  unfolding recover_coinbase_symbols recovered_order
  recover_coinbase_trades c attempts = elim c.last_ids [
    | [] ↦ ([], [])
    | entry ∷ rest ↦
        if text_eq (trim_space c.rest_url) []
        then ([], [])
        else (let (rows, errors) = recover_coinbase_symbols c attempts c.symbols in
            (stable_sort recovered_order rows, errors))
  ]
