-- ===== src/Exchanges/Deribit/Recovery.antt =====
-- quanttick/exchanges/deribit_recovery.go: the trades from a sequence number on, page by page.
pub mod Sequence
use go_quant_tick.Common.{
  ℕ, zero, suc, ◌≡◌, Bool, true, false, ◌||◌, not, Option, none, some, List, [], ◌∷◌, ◌++◌, Text,
  Word, text_Eq, Dict, lookup, nat_eq, text_eq, text_lt, trim_space, ltb, if◌then◌else◌, Result, ok,
  err, ◌>>=◌, stable_sort, int_lt, int_add,
}
use go_quant_tick.Trade.{Time, DecimalOps, TradeEvent}
use go_quant_tick.Exchanges.Protocol.{Json}
use go_quant_tick.Exchanges.Runtime.{
  HttpResponse, Attempt, not_sent, answered, decode_recovery_response,
}
use go_quant_tick.Exchanges.Deribit.{
  Deribit, DeribitError, DeribitTrade, DeribitParsedTrade, websocket_error, other_instrument,
  context_ended, fetch_failed, more_without_trades, unexpected_sequence, too_many_pages,
}
use go_quant_tick.Exchanges.Deribit.Protocol.{parse_deribit_trade}

abbrev pub deribit_recovery_max_pages : ℕ
deribit_recovery_max_pages = 100

-- `deribitRecoveryEnvelope`
pub record DeribitRecoveryEnvelope : Type 0 where
  pub error : Option (Word × Text)
  pub trades : List DeribitTrade
  pub has_more : Bool

-- The attempts for one page, until an answer that is not about the rate.
unfoldable pub fetch_deribit_page :
    {B : Type 0} → List (Attempt B) → Result DeribitError (B × Time) × List (Attempt B)
unfolding decode_recovery_response
fetch_deribit_page [] = (err context_ended, [])
fetch_deribit_page (not_sent ∷ attempts) = (err fetch_failed, attempts)
fetch_deribit_page (answered response ∷ attempts) =
    let again = fetch_deribit_page attempts in
    if nat_eq response.status_code 429
    then elim response.retry_after [ none ↦ (err fetch_failed, attempts) | some delay ↦ again ]
    else elim (decode_recovery_response response) [
      | none ↦ (err fetch_failed, attempts)
      | some body ↦ (ok (body, response.received_at), attempts)
    ]

unfoldable pub raw_less : DeribitTrade → DeribitTrade → Bool
raw_less left right = int_lt left.trade_sequence right.trade_sequence

-- What a page or several give: the trades, also in front of an error, and the sequence number that is
-- expected behind them.
pub record DeribitPage (D : Type 0) : Type 0 where
  pub rows : List (DeribitParsedTrade D)
  pub expected : Result DeribitError Word

-- a trade that is parsed in front of the rest of its page
unfoldable pub in_front :
    {D : Type 0} → DeribitPage D → Result DeribitError (DeribitParsedTrade D) → DeribitPage D
in_front rest (err e) = record { rows = []; expected = err e }
in_front rest (ok parsed) = record rest { rows = parsed ∷ rest.rows }

module _ {D : Type 0} ⦃ops : DecimalOps D⦄ ⦃json : Json⦄ (symbol : Text) where
  -- the loop over the trades of a page
  unfoldable pub recover_rows : Word → List DeribitTrade → Time → DeribitPage D
  recover_rows expected [] received_at = record { rows = []; expected = ok expected }
  recover_rows expected (raw ∷ trades) received_at =
      let rest = recover_rows (int_add expected 1) trades received_at in
      if not (text_eq raw.instrument_name symbol)
      then record { rows = []; expected = err (other_instrument raw.instrument_name) }
      else if not (nat_eq raw.trade_sequence expected)
      then record { rows = []; expected = err (unexpected_sequence expected raw.trade_sequence) }
      else in_front rest (parse_deribit_trade raw received_at)

  -- what follows a page of trades; `next` goes on with the pages behind it
  unfoldable pub after_deribit_page :
      (Word → List (DeribitParsedTrade D) × Option DeribitError)
      → Bool
      → DeribitPage D
      → List (DeribitParsedTrade D) × Option DeribitError
  after_deribit_page next has_more page = elim page.expected [
    | err e ↦ (page.rows, some e)
    | ok expected ↦
        if not has_more
        then (page.rows, none)
        else (let (rows, error) = next expected in (page.rows ++ rows, error))
  ]

  deribit_envelope :
      (Word → List (DeribitParsedTrade D) × Option DeribitError)
      → Word
      → DeribitRecoveryEnvelope
      → Time
      → List DeribitTrade
      → List (DeribitParsedTrade D) × Option DeribitError
  unfolding recover_rows after_deribit_page
  deribit_envelope next expected envelope received_at [] =
      ([], if envelope.has_more then some more_without_trades else none)
  deribit_envelope next expected envelope received_at (raw ∷ trades) =
      after_deribit_page next envelope.has_more
        (recover_rows expected (stable_sort raw_less (raw ∷ trades)) received_at)

  unfoldable pub deribit_answer :
      (Word → List (DeribitParsedTrade D) × Option DeribitError)
      → Word
      → Result DeribitError (DeribitRecoveryEnvelope × Time)
      → List (DeribitParsedTrade D) × Option DeribitError
  unfolding deribit_envelope
  deribit_answer next expected (err e) = ([], some e)
  deribit_answer next expected (ok (envelope, received_at)) = elim envelope.error [
    | some (code, message) ↦ ([], some (websocket_error code message))
    | none ↦ deribit_envelope next expected envelope received_at envelope.trades
  ]

  -- the loop of `recoverSymbol` over the pages that are left: the trades, and the error that ends it
  unfoldable pub recover_deribit_pages :
      ℕ
      → List (Attempt DeribitRecoveryEnvelope)
      → Word
      → List (DeribitParsedTrade D) × Option DeribitError
  unfolding deribit_answer fetch_deribit_page
  recover_deribit_pages zero attempts expected = ([], some too_many_pages)
  recover_deribit_pages (suc pages) attempts expected =
      let answer = fetch_deribit_page attempts in
      deribit_answer (recover_deribit_pages pages answer.1) expected answer.0

  -- `recoverSymbol`
  unfoldable pub recover_deribit_symbol :
      List (Attempt DeribitRecoveryEnvelope)
      → Word
      → List (DeribitParsedTrade D) × Option DeribitError
  unfolding recover_deribit_pages
  recover_deribit_symbol = recover_deribit_pages deribit_recovery_max_pages

module _ {D : Type 0} where
  unfoldable pub deribit_recovered_less : DeribitParsedTrade D → DeribitParsedTrade D → Bool
  deribit_recovered_less left right =
      if not (nat_eq left.event.timestamp right.event.timestamp)
      then ltb left.event.timestamp right.event.timestamp
      else if not (text_eq left.event.symbol right.event.symbol)
      then text_lt left.event.symbol right.event.symbol
      else int_lt left.sequence right.sequence

  -- the loop of `recoverTrades` over the symbols
  unfoldable pub recover_deribit_symbols :
      ⦃ops : DecimalOps D⦄
      → ⦃json : Json⦄ → Deribit
      → (Text → List (Attempt DeribitRecoveryEnvelope))
      → List Text
      → List (DeribitParsedTrade D) × List DeribitError
  unfolding recover_deribit_symbol
  recover_deribit_symbols d attempts [] = ([], [])
  recover_deribit_symbols d attempts (symbol ∷ symbols) =
      let (more, errors) = recover_deribit_symbols d attempts symbols in
      elim (lookup symbol d.last_sequences) [
        | none ↦ (more, errors)
        | some cursor ↦
            let (rows, error) =
              recover_deribit_symbol symbol (attempts symbol) (int_add cursor 1) in
            (rows ++ more, elim error [ none ↦ errors | some e ↦ e ∷ errors ])
      ]

  -- `recoverTrades`
  unfoldable pub recover_deribit_trades :
      ⦃ops : DecimalOps D⦄
      → ⦃json : Json⦄ → Deribit
      → (Text → List (Attempt DeribitRecoveryEnvelope))
      → List (DeribitParsedTrade D) × List DeribitError
  unfolding recover_deribit_symbols deribit_recovered_less
  recover_deribit_trades d attempts = elim d.last_sequences [
    | [] ↦ ([], [])
    | entry ∷ rest ↦
        if text_eq (trim_space d.rest_url) []
        then ([], [])
        else (let (rows, errors) = recover_deribit_symbols d attempts d.symbols in
            (stable_sort deribit_recovered_less rows, errors))
  ]
