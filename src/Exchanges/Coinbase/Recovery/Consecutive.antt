-- ===== src/Exchanges/Coinbase/Recovery/Consecutive.antt =====
-- The IDs of what recoverSymbol of quanttick/exchanges/coinbase_recovery.go returns.
use go_quant_tick.Common.{
  ℕ, zero, suc, ◌≡◌, not, ◌||◌, List, [], ◌∷◌, ◌++◌, Text, Word, nat_eq, nat_eq_iff, text_eq,
  text_eq_iff, Result, ok, err, stable_sort, int_lt, int_add, format_int, All, All-append,
  All-insert_all, OkHas, OkHas-bind, OkHas-then, OkHas-of, OkHas-also, Bool-cases, inl, inr, arith,
  subst, ◌∙◌,
}
use go_quant_tick.Trade.{Time, DecimalOps, new_trade_event}
use go_quant_tick.Exchanges.Runtime.{Attempt}
use go_quant_tick.Exchanges.Coinbase.{
  CoinbaseError, CoinbaseFormats, CoinbaseMatchMessage, CoinbaseParsedTrade, parse_coinbase_trade,
}
use go_quant_tick.Exchanges.Coinbase.Recovery.{
  PageEnd, found, passed, id_less, check_consecutive, at_cursor, row_product, scan_row, scan_rows,
  next_after, after_rows, answer_rows, fetch_coinbase_page, recover_coinbase_pages,
  recover_coinbase_symbol, coinbase_recovery_max_pages,
}

module _ {D : Type 0} where
  -- A trade of `symbol`, whose UID is the print of its ID.
  pub record IsOf (symbol : Text) (trade : CoinbaseParsedTrade D) : Type 0 where
    pub of_symbol : trade.event.symbol ≡ symbol
    pub of_uid : trade.event.uid ≡ format_int trade.trade_id

  -- The IDs of the trades are those from `from` on, one by one.
  abbrev pub Consecutive : Word → List (CoinbaseParsedTrade D) → Type 0
  Consecutive from [] = Unit
  Consecutive from (trade ∷ trades) = (trade.trade_id ≡ from) × Consecutive (int_add from 1) trades

  -- The trades of `symbol` right behind the cursor.
  pub record Follows (symbol : Text) (cursor : Word) (trades : List (CoinbaseParsedTrade D))
      : Type 0 where
    pub consecutive : Consecutive (int_add cursor 1) trades
    pub of_symbol : All (IsOf symbol) trades

  check_consecutive-Consecutive :
      (from : Word) (trades : List (CoinbaseParsedTrade D))
      → OkHas (λ _. Consecutive from trades) (check_consecutive from trades)
  unfolding check_consecutive
  check_consecutive-Consecutive from [] = tt
  check_consecutive-Consecutive from (trade ∷ trades) =
      elim (Bool-cases (nat_eq trade.trade_id from)) [
        | inr other ↦ rw other tt
        | inl same ↦ rw same (
            OkHas-also (Consecutive (int_add from 1) trades)
              (check_consecutive (int_add from 1) trades) ((nat_eq_iff trade.trade_id from).0 same)
              (check_consecutive-Consecutive (int_add from 1) trades))
      ]

  module _ (symbol : Text) (cursor : Word) where
    at_cursor-Follows :
        (newest_first : List (CoinbaseParsedTrade D))
        → All (IsOf symbol) newest_first
        → OkHas (Follows symbol cursor) (at_cursor cursor newest_first)
    unfolding at_cursor stable_sort
    at_cursor-Follows newest_first h =
        let trades = stable_sort id_less newest_first in
        OkHas-bind (λ _. Consecutive (int_add cursor 1) trades) (Follows symbol cursor)
          (check_consecutive (int_add cursor 1) trades) (λ _. ok trades)
          (check_consecutive-Consecutive (int_add cursor 1) trades)
          (λ _ c. record {
            consecutive = c;
            of_symbol = All-insert_all id_less (IsOf symbol) [] newest_first tt h;
          })

    -- what holds behind the rows of a page
    abbrev EndIs : PageEnd D → Type 0
    EndIs (found trades) = Follows symbol cursor trades
    EndIs (passed newest_first oldest_id) = All (IsOf symbol) newest_first

module _ (D : Type 0) ⦃ops : DecimalOps D⦄ (formats : CoinbaseFormats) (symbol : Text)
    (cursor : Word) where
  abbrev Trades : Type 0
  Trades = List (CoinbaseParsedTrade D)

  parse_coinbase_trade_event :
      (msg : CoinbaseMatchMessage) (received_at : Time) (parsed : CoinbaseParsedTrade D)
      → parse_coinbase_trade formats msg received_at ≡ ok parsed
      → (parsed.event.symbol ≡ msg.product_id) × (parsed.event.uid ≡ format_int parsed.trade_id)
  unfolding parse_coinbase_trade new_trade_event
  parse_coinbase_trade_event msg received_at parsed h = (ground arith, ground arith)

  parse_coinbase_trade-IsOf :
      (msg : CoinbaseMatchMessage) (received_at : Time)
      → msg.product_id ≡ symbol
      → OkHas (IsOf symbol) (parse_coinbase_trade formats {D = D} msg received_at)
  parse_coinbase_trade-IsOf msg received_at h =
      OkHas-of (IsOf symbol) (parse_coinbase_trade formats msg received_at) (λ parsed e.
        let event = parse_coinbase_trade_event msg received_at parsed e in
        record { of_symbol = event.0 ∙ h; of_uid = event.1 })

  scan_row-EndIs :
      (next : Word → Trades → Result CoinbaseError (PageEnd D))
      → ((oldest_id : Word) (newest_first : Trades)
          → All (IsOf symbol) newest_first
          → OkHas (EndIs symbol cursor) (next oldest_id newest_first))
      → (row : CoinbaseMatchMessage) (received_at : Time) (oldest_id : Word) (newest_first : Trades)
      → row.product_id ≡ symbol
      → All (IsOf symbol) newest_first
      → OkHas
          (EndIs symbol cursor)
          (scan_row formats symbol cursor next row received_at oldest_id newest_first)
  unfolding scan_row
  scan_row-EndIs next later row received_at oldest_id newest_first of_product h =
      elim (Bool-cases (nat_eq row.trade_id cursor)) [
        | inl at ↦ rw at (
            OkHas-bind (Follows symbol cursor) (EndIs symbol cursor) (at_cursor cursor newest_first)
              (λ trades. ok (found trades)) (at_cursor-Follows symbol cursor newest_first h)
              (λ trades f. f))
        | inr behind ↦ elim (Bool-cases (int_lt row.trade_id cursor)) [
          | inl below ↦ rw (behind, below) (later _ newest_first h)
          | inr above ↦
              rw (behind, above)
                (OkHas-bind (IsOf symbol) (EndIs symbol cursor)
                  (parse_coinbase_trade formats row received_at) _
                  (parse_coinbase_trade-IsOf row received_at of_product)
                  (λ parsed p.
                    later _ (newest_first ++ parsed ∷ [])
                      (All-append (IsOf symbol) newest_first (parsed ∷ []) h (p, tt))))
        ]
      ]

  scan_rows-EndIs :
      (payloads : List CoinbaseMatchMessage) (received_at : Time) (oldest_id : Word)
      (newest_first : Trades)
      → All (IsOf symbol) newest_first
      → OkHas
          (EndIs symbol cursor)
          (scan_rows formats symbol cursor payloads received_at oldest_id newest_first)
  unfolding scan_rows
  scan_rows-EndIs [] received_at oldest_id newest_first h = h
  scan_rows-EndIs (payload ∷ payloads) received_at oldest_id newest_first h =
      let row = row_product symbol payload in
      elim (Bool-cases (text_eq row.product_id symbol)) [
        | inr other ↦ rw other tt
        | inl same ↦ rw same (
            scan_row-EndIs (scan_rows formats symbol cursor payloads received_at)
              (scan_rows-EndIs payloads received_at) row received_at oldest_id newest_first
              ((text_eq_iff row.product_id symbol).0 same) h)
      ]

  after_rows-Follows :
      (next : Word → Trades → Result CoinbaseError Trades)
      → ((after : Word) (newest_first : Trades)
          → All (IsOf symbol) newest_first
          → OkHas (Follows symbol cursor) (next after newest_first))
      → (header : Text) (previous : Word) (end : PageEnd D) → EndIs symbol cursor end
      → OkHas (Follows symbol cursor) (after_rows formats symbol cursor next header previous end)
  unfolding after_rows
  after_rows-Follows next later header previous (found trades) h = h
  after_rows-Follows next later header previous (passed newest_first oldest_id) h =
      OkHas-then (Follows symbol cursor) (next_after header oldest_id) _ (λ after.
        elim (Bool-cases (not (int_lt 0 after) || nat_eq after previous)) [
          | inl stays ↦ rw stays tt
          | inr moves ↦ rw moves (later after newest_first h)
        ])

  answer_rows-Follows :
      (next : Word → Trades → Result CoinbaseError Trades)
      → ((after : Word) (newest_first : Trades)
          → All (IsOf symbol) newest_first
          → OkHas (Follows symbol cursor) (next after newest_first))
      → (after : Word) (newest_first : Trades)
        (answer : Result CoinbaseError (List CoinbaseMatchMessage × Text × Time))
      → All (IsOf symbol) newest_first
      → OkHas
          (Follows symbol cursor)
          (answer_rows formats symbol cursor next after newest_first answer)
  unfolding answer_rows
  answer_rows-Follows next later after newest_first (err e) h = tt
  answer_rows-Follows next later after newest_first (ok ([], header, received_at)) h = tt
  answer_rows-Follows next later after newest_first (ok (payload ∷ payloads, header, received_at))
        h =
      OkHas-bind (EndIs symbol cursor) (Follows symbol cursor) _ _
        (scan_rows-EndIs (payload ∷ payloads) received_at 0 newest_first h)
        (after_rows-Follows next later header after)

  recover_coinbase_pages-Follows :
      (pages : ℕ) (attempts : List (Attempt (List CoinbaseMatchMessage))) (after : Word)
      (newest_first : Trades)
      → All (IsOf symbol) newest_first
      → OkHas
          (Follows symbol cursor)
          (recover_coinbase_pages formats symbol cursor pages attempts after newest_first)
  unfolding recover_coinbase_pages
  recover_coinbase_pages-Follows zero attempts after newest_first h = tt
  recover_coinbase_pages-Follows (suc pages) attempts after newest_first h =
      let answer = fetch_coinbase_page attempts in
      answer_rows-Follows (recover_coinbase_pages formats symbol cursor pages answer.1)
        (recover_coinbase_pages-Follows pages answer.1) after newest_first answer.0 h

-- Where the recovery of a symbol succeeds, whatever the pages and their order, it returns trades of
-- the symbol, whose UIDs are the prints of their IDs, and the IDs are those right behind the cursor,
-- one by one without a gap.
pub recover_coinbase_symbol-Follows :
    {D : Type 0} ⦃ops : DecimalOps D⦄ (formats : CoinbaseFormats) (symbol : Text) (cursor : Word)
    (attempts : List (Attempt (List CoinbaseMatchMessage))) (trades : List (CoinbaseParsedTrade D))
    → recover_coinbase_symbol formats symbol cursor attempts ≡ ok trades
    → Follows symbol cursor trades
unfolding recover_coinbase_symbol
recover_coinbase_symbol-Follows {D} formats symbol cursor attempts trades h =
    subst (OkHas (Follows symbol cursor)) h (
      recover_coinbase_pages-Follows D formats symbol cursor coinbase_recovery_max_pages attempts 0
        [] tt)
