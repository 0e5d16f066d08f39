-- ===== src/Exchanges/Binance/Recovery/Consecutive.antt =====
-- The pages of recoverFuturesSymbol and recoverSpotSymbol, and the IDs of what each adds.
use go_quant_tick.Common.{
  ◌≡◌, Bool, List, [], ◌∷◌, ◌++◌, Text, Word, Dict, bytes, nat_eq, Result, ok, err, int_add,
  format_int, arith, refl, Bool-cases, Result-cases, both_ok, inl, inr, ◌⊎◌, nat_eq_iff, ◌∙◌,
}
use go_quant_tick.Trade.{Time, DecimalOps, new_trade_event}
use go_quant_tick.Exchanges.Protocol.{Json}
use go_quant_tick.Exchanges.Binance.{
  Binance, BinanceError, BinanceTradeMessage, BinanceParsedTrade, parsed_trade,
  parse_recovery_trade,
}
use go_quant_tick.Exchanges.Binance.Protocol.{
  BinanceJson, build_parsed_trade, required, binance_buyer_is_maker,
}
use go_quant_tick.Exchanges.Binance.Recovery.{
  PageOutcome, recover_futures_page, parse_futures_recovery_trade, recover_spot_page,
  BinanceSpotRecoveryTrade,
}

abbrev pub Fails : Result BinanceError Word → Type 0
Fails result = (e : BinanceError) × (result ≡ err e)

module _ {D : Type 0} where
  -- `trade` is one of `symbol` with this ID, which is also its UID.
  pub record IsTrade (symbol : Text) (trade_id : Word) (trade : BinanceParsedTrade D) : Type 0 where
    pub of_symbol : trade.event.symbol ≡ symbol
    pub of_id : trade.trade_id ≡ trade_id
    pub of_uid : trade.event.uid ≡ format_int trade_id

  -- The trades of `symbol` with the IDs from `from` on, one by one.
  abbrev pub Consecutive : Text → Word → List (BinanceParsedTrade D) → Type 0
  Consecutive symbol from [] = Unit
  Consecutive symbol from (trade ∷ trades) =
      IsTrade symbol from trade × Consecutive symbol (int_add from 1) trades

  -- the ID behind the trades
  abbrev pub after : Word → List (BinanceParsedTrade D) → Word
  after from [] = from
  after from (trade ∷ trades) = after (int_add from 1) trades

  pub Consecutive-append :
      (symbol : Text) (from : Word) (xs ys : List (BinanceParsedTrade D))
      → Consecutive symbol from xs
      → Consecutive symbol (after from xs) ys
      → Consecutive symbol from (xs ++ ys)
  Consecutive-append symbol from [] ys h k = k
  Consecutive-append symbol from (x ∷ xs) ys h k =
      (h.0, Consecutive-append symbol (int_add from 1) xs ys h.1 k)

  -- What a page adds is consecutive, and it expects the next ID behind that.
  pub record IsPage (symbol : Text) (from : Word) (outcome : PageOutcome D) : Type 0 where
    pub rows_Consecutive : Consecutive symbol from outcome.rows
    pub expects : Fails outcome.expected ⊎ (outcome.expected ≡ ok (after from outcome.rows))

  IsPage-failed :
      (symbol : Text) (from : Word) (ids : Dict Text Word) (e : BinanceError)
      → IsPage symbol from (record { rows = []; sequence_ids = ids; expected = err e })
  IsPage-failed symbol from ids e = record { rows_Consecutive = tt; expects = inl (e, refl) }

  IsPage-done :
      (symbol : Text) (from : Word) (ids : Dict Text Word)
      → IsPage symbol from (record { rows = []; sequence_ids = ids; expected = ok from })
  IsPage-done symbol from ids = record { rows_Consecutive = tt; expects = inr refl }

  IsPage-more :
      (symbol : Text) (from : Word) (parsed : BinanceParsedTrade D) (rest : PageOutcome D)
      → IsTrade symbol from parsed
      → IsPage symbol (int_add from 1) rest
      → IsPage symbol from (record rest { rows = parsed ∷ rest.rows })
  IsPage-more symbol from parsed rest trade page = record {
    rows_Consecutive = (trade, page.rows_Consecutive);
    expects = page.expects;
  }

  pub build_parsed_trade_event :
      ⦃ops : DecimalOps D⦄ (b : Binance) (msg : BinanceTradeMessage) (buyer_is_maker : Bool)
      (received_at : Time) (ids ids' : Dict Text Word) (parsed : BinanceParsedTrade D)
      → build_parsed_trade b msg buyer_is_maker received_at ids ≡ ok (parsed, ids')
      → (parsed.event.symbol ≡ msg.symbol) × (parsed.event.uid ≡ format_int parsed.trade_id)
  unfolding build_parsed_trade parsed_trade new_trade_event
  build_parsed_trade_event b msg buyer_is_maker received_at ids ids' parsed h =
      (ground arith, ground arith)

  module _ ⦃ops : DecimalOps D⦄ (b : Binance) (symbol : Text) where
    module _ ⦃json : Json⦄ (decode : BinanceJson) where
      parse_futures_event :
          (payload : Text) (received_at : Time) (ids ids' : Dict Text Word)
          (parsed : BinanceParsedTrade D)
          → parse_futures_recovery_trade b symbol decode payload received_at ids ≡ ok (parsed, ids')
          → (parsed.event.symbol ≡ symbol) × (parsed.event.uid ≡ format_int parsed.trade_id)
      unfolding parse_futures_recovery_trade
      parse_futures_event payload received_at ids ids' parsed h =
          let (msg, read, h1) =
            both_ok (required parse_recovery_trade (decode.trade payload)) _ h in
          let (maker, m, h2) = both_ok (binance_buyer_is_maker payload) _ h1 in
          build_parsed_trade_event b (record msg { symbol = symbol }) maker received_at ids ids'
            parsed h2

      pub recover_futures_page-IsPage :
          (expected : Word) (payloads : List Text) (received_at : Time) (ids : Dict Text Word)
          → IsPage symbol expected
              (recover_futures_page b symbol decode expected payloads received_at ids)
      unfolding recover_futures_page
      recover_futures_page-IsPage expected [] received_at ids = record {
        rows_Consecutive = tt;
        expects = inr refl;
      }
      recover_futures_page-IsPage expected (payload ∷ payloads) received_at ids =
          elim (Result-cases (
            parse_futures_recovery_trade {D = D} ⦃ops = ops⦄ b symbol decode payload received_at
              ids)) [
                | inr (e, failed) ↦
                    rw (failed, recover_futures_page) (IsPage-failed symbol expected ids e)
                | inl ((parsed, ids'), done) ↦
                    let event = parse_futures_event payload received_at ids ids' parsed done in
                    elim (Bool-cases (nat_eq parsed.trade_id expected)) [
                      | inr other ↦
                          rw (done, recover_futures_page)
                            (rw other (IsPage-failed symbol expected ids' _))
                      | inl same ↦
                          let same_id : parsed.trade_id ≡ expected =
                            (nat_eq_iff parsed.trade_id expected).0 same in
                          rw (done, recover_futures_page)
                            (rw same (
                              IsPage-more symbol expected parsed _
                                (record {
                                  of_symbol = event.0;
                                  of_id = same_id;
                                  of_uid = rw (← same_id) event.1;
                                })
                                (recover_futures_page-IsPage (int_add expected 1) payloads
                                  received_at ids')))
                    ]
              ]

    -- the spot market has the ID of the message, where the adapter reads its stream
    build_spot_event :
        (msg : BinanceTradeMessage) (buyer_is_maker : Bool) (received_at : Time)
        (ids ids' : Dict Text Word) (parsed : BinanceParsedTrade D)
        → b.stream ≡ bytes "trade"
        → build_parsed_trade b msg buyer_is_maker received_at ids ≡ ok (parsed, ids')
        → parsed.trade_id ≡ msg.trade_id
    unfolding build_parsed_trade parsed_trade
    build_spot_event msg buyer_is_maker received_at ids ids' parsed spot h = ground arith

    module _ (spot : b.stream ≡ bytes "trade") where
      pub recover_spot_page-IsPage :
          (expected : Word) (payloads : List BinanceSpotRecoveryTrade) (received_at : Time)
          (ids : Dict Text Word)
          → IsPage symbol expected (recover_spot_page b symbol expected payloads received_at ids)
      unfolding recover_spot_page
      recover_spot_page-IsPage expected [] received_at ids = IsPage-done symbol expected ids
      recover_spot_page-IsPage expected (payload ∷ payloads) received_at ids =
          let msg : BinanceTradeMessage = record {
            symbol = symbol;
            trade_id = payload.trade_id;
            aggregate_trade_id = 0;
            first_trade_id = 0;
            last_trade_id = 0;
            trade_time = payload.trade_time;
            price = payload.price;
            quantity = payload.quantity;
          } in
          elim (Bool-cases (nat_eq payload.trade_id expected)) [
            | inr other ↦ rw other (IsPage-failed symbol expected ids _)
            | inl same ↦
                elim (Result-cases (
                  build_parsed_trade {D = D} ⦃ops = ops⦄ b msg payload.buyer_is_maker received_at
                    ids)) [
                      | inr (e, failed) ↦ rw (same, failed) (IsPage-failed symbol expected ids _)
                      | inl ((parsed, ids'), done) ↦
                          let event =
                            build_parsed_trade_event b msg payload.buyer_is_maker received_at ids
                              ids' parsed done in
                          let same_id : parsed.trade_id ≡ expected =
                            build_spot_event msg payload.buyer_is_maker received_at ids ids' parsed
                              spot done
                            ∙ (nat_eq_iff payload.trade_id expected).0 same in
                          rw (same, done)
                            (IsPage-more symbol expected parsed _
                              (record {
                                of_symbol = event.0;
                                of_id = same_id;
                                of_uid = rw (← same_id) event.1;
                              })
                              (recover_spot_page-IsPage (int_add expected 1) payloads received_at
                                ids'))
                    ]
          ]
