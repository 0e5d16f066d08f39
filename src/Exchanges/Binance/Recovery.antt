-- ===== src/Exchanges/Binance/Recovery.antt =====
-- quanttick/exchanges/binance_recovery.go and quanttick/exchanges/binance_spot_recovery.go: the
-- trades that were missed are fetched from the REST interface, page by page. The requests of a
-- symbol and their answers are a list of attempts; where it ends, the context has ended.
pub mod Consecutive
pub mod Gapless
use go_quant_tick.Common.{
  ℕ, zero, suc, ◌+◌, ◌-◌, ◌≡◌, Bool, true, false, ◌||◌, not, Option, none, some, List, [], ◌∷◌,
  ◌++◌, Text, Word, text_Eq, Dict, lookup, bytes, nat_eq, text_eq, text_lt, trim_space, ltb, leb,
  if◌then◌else◌, Result, ok, err, ◌>>=◌, length, stable_sort, int_add, int_lt, parse_int64,
}
use go_quant_tick.Trade.{Time, Duration, minute, truncate, DecimalOps, TradeEvent}
use go_quant_tick.Exchanges.Protocol.{Json}
use go_quant_tick.Exchanges.Runtime.{
  HttpResponse, Attempt, not_sent, answered, decode_recovery_response,
}
use go_quant_tick.Exchanges.Binance.Protocol.{
  BinanceJson, required, binance_buyer_is_maker, build_parsed_trade,
}
use go_quant_tick.Exchanges.Binance.{
  Binance, BinanceError, BinanceTradeMessage, BinanceParsedTrade, binance_name,
  binance_futures_name, binance_recovery_page_limit, binance_recovery_max_pages, fetch_failed,
  parse_recovery_trade, unexpected_trade, too_many_pages, context_ended,
}

-- the delay until the next minute, if the weight that is used up reaches the maximum
weight_delay : Duration → Time → Word → Word → Duration
weight_delay delay now max_weight weight =
    let minute_delay = truncate minute now + minute - now in
    if int_lt weight max_weight
    then delay
    else if ltb delay minute_delay
    then minute_delay
    else delay

-- `binanceResponseDelay`
unfoldable pub binance_response_delay : {B : Type 0} → HttpResponse B → Word → Option Duration
unfolding weight_delay
binance_response_delay response max_weight = elim response.retry_after [
  | none ↦ none
  | some delay ↦
      let value = trim_space (response.header (bytes "X-MBX-USED-WEIGHT-1M")) in
      if text_eq value [] || not (int_lt 0 max_weight)
      then some delay
      else elim (parse_int64 value) [
        | none ↦ none
        | some weight ↦ some (weight_delay delay response.received_at max_weight weight)
      ]
]

-- 429 and 418
is_rate_limited : ℕ → Bool
is_rate_limited status_code = nat_eq status_code 429 || nat_eq status_code 418

-- The attempts for one page, until an answer that is not about the rate; the attempts behind it.
unfoldable pub fetch_page :
    {B : Type 0} → Word → List (Attempt B) → Result BinanceError (B × Time) × List (Attempt B)
unfolding binance_response_delay is_rate_limited decode_recovery_response
fetch_page max_weight [] = (err context_ended, [])
fetch_page max_weight (not_sent ∷ attempts) = (err fetch_failed, attempts)
fetch_page max_weight (answered response ∷ attempts) =
    let again = fetch_page max_weight attempts in
    elim (binance_response_delay response max_weight) [
      | none ↦ (err fetch_failed, attempts)
      | some delay ↦
          if is_rate_limited response.status_code
          then again
          else elim (decode_recovery_response response) [
            | none ↦ (err fetch_failed, attempts)
            | some body ↦ (ok (body, response.received_at), attempts)
          ]
    ]

unfoldable pub is_empty : Dict Text Word → Bool
is_empty [] = true
is_empty (entry ∷ rest) = false

-- What a page adds, and the ID that is expected behind it.
pub record PageOutcome (D : Type 0) : Type 0 where
  pub rows : List (BinanceParsedTrade D)
  pub sequence_ids : Dict Text Word
  pub expected : Result BinanceError Word

-- What the requests for a symbol give, with the error that ends them.
pub record Recovered (D : Type 0) : Type 0 where
  pub rows : List (BinanceParsedTrade D)
  pub sequence_ids : Dict Text Word
  pub error : Option BinanceError

-- `binanceSpotRecoveryTrade`
pub record BinanceSpotRecoveryTrade : Type 0 where
  pub trade_id : Word
  pub price : Text
  pub quantity : Text
  pub trade_time : Word
  pub buyer_is_maker : Bool

module _ {D : Type 0} where
  -- the loop over pages that both markets have, with what a page does as a parameter
  module _ {P : Type 0} (page : Word → List P → Time → Dict Text Word → PageOutcome D)
      (max_weight : Word) where
    recover_next :
        (List (Attempt (List P)) → Word → Dict Text Word → Recovered D)
        → List (Attempt (List P))
        → List P
        → PageOutcome D
        → Recovered D
    recover_next next attempts payloads outcome = elim outcome.expected [
      | err e ↦ record { rows = outcome.rows; sequence_ids = outcome.sequence_ids; error = some e }
      | ok expected ↦
          if ltb (length payloads) binance_recovery_page_limit
          then record { rows = outcome.rows; sequence_ids = outcome.sequence_ids; error = none }
          else (let rest = next attempts expected outcome.sequence_ids in
              record rest { rows = outcome.rows ++ rest.rows })
    ]

    -- what is made of an answer, with the loop behind it as a function
    recover_answer :
        (List (Attempt (List P)) → Word → Dict Text Word → Recovered D)
        → Word
        → Dict Text Word
        → Result BinanceError (List P × Time)
        → List (Attempt (List P))
        → Recovered D
    unfolding recover_next
    recover_answer next expected sequence_ids (err e) attempts = record {
      rows = [];
      sequence_ids = sequence_ids;
      error = some e;
    }
    recover_answer next expected sequence_ids (ok ([], received_at)) attempts = record {
      rows = [];
      sequence_ids = sequence_ids;
      error = none;
    }
    recover_answer next expected sequence_ids (ok (payload ∷ payloads, received_at)) attempts =
        recover_next next attempts (payload ∷ payloads)
          (page expected (payload ∷ payloads) received_at sequence_ids)

    unfoldable pub recover_pages : ℕ → List (Attempt (List P)) → Word → Dict Text Word → Recovered D
    unfolding recover_answer fetch_page
    recover_pages zero attempts expected sequence_ids = record {
      rows = [];
      sequence_ids = sequence_ids;
      error = some too_many_pages;
    }
    recover_pages (suc pages) attempts expected sequence_ids =
        let answer = fetch_page max_weight attempts in
        recover_answer (recover_pages pages) expected sequence_ids answer.0 answer.1

  module _ ⦃ops : DecimalOps D⦄ (b : Binance) (symbol : Text) where
    -- what a page of spot trades adds, trade by trade
    unfoldable pub recover_spot_page :
        Word → List BinanceSpotRecoveryTrade → Time → Dict Text Word → PageOutcome D
    unfolding build_parsed_trade
    recover_spot_page expected [] received_at sequence_ids = record {
      rows = [];
      sequence_ids = sequence_ids;
      expected = ok expected;
    }
    recover_spot_page expected (payload ∷ payloads) received_at sequence_ids =
        let msg : BinanceTradeMessage = record {
          symbol = symbol;
          trade_id = payload.trade_id;
          aggregate_trade_id = 0;
          first_trade_id = 0;
          last_trade_id = 0;
          trade_time = payload.trade_time;
          price = payload.price;
          quantity = payload.quantity;
        } in
        let parse : Result BinanceError (BinanceParsedTrade D × Dict Text Word) =
          build_parsed_trade b msg payload.buyer_is_maker received_at sequence_ids in
        let next = recover_spot_page (int_add expected 1) payloads received_at in
        if not (nat_eq payload.trade_id expected)
        then record {
          rows = [];
          sequence_ids = sequence_ids;
          expected = err (unexpected_trade expected payload.trade_id);
        }
        else elim parse [
          | err e ↦ record {
            rows = [];
            sequence_ids = sequence_ids;
            expected = err parse_recovery_trade;
          }
          | ok (parsed, sequence_ids') ↦
              let rest = next sequence_ids' in record rest { rows = parsed ∷ rest.rows }
        ]

    module _ ⦃json : Json⦄ (decode : BinanceJson) where
      -- `parseFuturesRecoveryTrade`
      unfoldable pub parse_futures_recovery_trade :
          Text → Time → Dict Text Word → Result BinanceError (BinanceParsedTrade D × Dict Text Word)
      unfolding required binance_buyer_is_maker build_parsed_trade
      parse_futures_recovery_trade payload received_at sequence_ids = do
        msg ← required parse_recovery_trade (decode.trade payload)
        buyer_is_maker ← binance_buyer_is_maker payload
        build_parsed_trade b (record msg { symbol = symbol }) buyer_is_maker received_at
            sequence_ids

      -- what a page of aggregate trades adds, trade by trade
      unfoldable pub recover_futures_page : Word → List Text → Time → Dict Text Word → PageOutcome D
      unfolding parse_futures_recovery_trade
      recover_futures_page expected [] received_at sequence_ids = record {
        rows = [];
        sequence_ids = sequence_ids;
        expected = ok expected;
      }
      recover_futures_page expected (payload ∷ payloads) received_at sequence_ids =
          let next = recover_futures_page (int_add expected 1) payloads received_at in
          elim (parse_futures_recovery_trade payload received_at sequence_ids) [
            | err e ↦ record { rows = []; sequence_ids = sequence_ids; expected = err e }
            | ok (parsed, sequence_ids') ↦
                let rest = next sequence_ids' in
                if not (nat_eq parsed.trade_id expected)
                then record {
                  rows = [];
                  sequence_ids = sequence_ids';
                  expected = err (unexpected_trade expected parsed.trade_id);
                }
                else record rest { rows = parsed ∷ rest.rows }
          ]

      -- `recoverFuturesSymbol`
      unfoldable pub recover_futures_symbol :
          List (Attempt (List Text)) → Word → Dict Text Word → Recovered D
      unfolding recover_pages recover_futures_page
      recover_futures_symbol =
          recover_pages recover_futures_page b.recovery_max_weight binance_recovery_max_pages

    -- `recoverSpotSymbol`
    unfoldable pub recover_spot_symbol :
        List (Attempt (List BinanceSpotRecoveryTrade)) → Word → Dict Text Word → Recovered D
    unfolding recover_pages recover_spot_page
    recover_spot_symbol =
        recover_pages recover_spot_page b.recovery_max_weight binance_recovery_max_pages

  -- the order in which the trades of several symbols are emitted
  unfoldable pub recovered_less : BinanceParsedTrade D → BinanceParsedTrade D → Bool
  recovered_less left right =
      if not (nat_eq left.event.timestamp right.event.timestamp)
      then ltb left.event.timestamp right.event.timestamp
      else if not (text_eq left.event.symbol right.event.symbol)
      then text_lt left.event.symbol right.event.symbol
      else int_lt left.trade_id right.trade_id

  -- the loop over the symbols of the adapter: those with a last ID are recovered from the next one
  unfoldable pub recover_symbols :
      Binance
      → (Text → Word → Dict Text Word → Recovered D)
      → List Text
      → Dict Text Word
      → List (BinanceParsedTrade D) × List BinanceError
  recover_symbols b recover [] sequence_ids = ([], [])
  recover_symbols b recover (symbol ∷ symbols) sequence_ids = elim (lookup symbol b.last_ids) [
    | none ↦ recover_symbols b recover symbols sequence_ids
    | some last_id ↦
        let found = recover symbol (int_add last_id 1) sequence_ids in
        let (rows, errors) = recover_symbols b recover symbols found.sequence_ids in
        (found.rows ++ rows, elim found.error [ none ↦ errors | some e ↦ e ∷ errors ])
  ]

  unfoldable pub sorted_symbols :
      Binance
      → (Text → Word → Dict Text Word → Recovered D)
      → List (BinanceParsedTrade D) × List BinanceError
  unfolding recover_symbols recovered_less
  sorted_symbols b recover =
      let (rows, errors) = recover_symbols b recover b.symbols b.last_ids in
      (stable_sort recovered_less rows, errors)

  module _ ⦃ops : DecimalOps D⦄ ⦃json : Json⦄ (decode : BinanceJson) where
    -- `recoverFuturesTrades`
    unfoldable pub recover_futures_trades :
        Binance
        → (Text → List (Attempt (List Text)))
        → List (BinanceParsedTrade D) × List BinanceError
    unfolding sorted_symbols recover_futures_symbol is_empty
    recover_futures_trades b attempts =
        if not (text_eq b.name binance_futures_name) || is_empty b.last_ids
        then ([], [])
        else sorted_symbols b (λ symbol. recover_futures_symbol b symbol decode (attempts symbol))

    -- `recoverTrades`
    unfoldable pub recover_trades :
        Binance
        → (Text → List (Attempt (List Text)))
        → (Text → List (Attempt (List BinanceSpotRecoveryTrade)))
        → List (BinanceParsedTrade D) × List BinanceError
    unfolding recover_futures_trades sorted_symbols recover_spot_symbol is_empty
    recover_trades b futures_attempts spot_attempts =
        if text_eq b.name binance_futures_name
        then recover_futures_trades b futures_attempts
        else if not (text_eq b.name binance_name) || is_empty b.last_ids
        then ([], [])
        else sorted_symbols b (λ symbol. recover_spot_symbol b symbol (spot_attempts symbol))
