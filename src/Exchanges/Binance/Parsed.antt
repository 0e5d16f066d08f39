-- ===== src/Exchanges/Binance/Parsed.antt =====
-- The UIDs and the IDs of the trades that a session of Binance gets.
use go_quant_tick.Common.{
  ◌<◌, ◌^◌, ◌≡◌, Bool, true, false, not, Option, none, some, List, [], ◌∷◌, ◌++◌, Text, Word,
  text_Eq, text_eq, text_eq_iff, Dict, lookup, if◌then◌else◌, leb, length, Result, ok, err, both_ok,
  int_add, int_add-lt, format_int, All, All-append, All-insert_all, stable_sort, bytes, arith, refl,
  Bool-cases, Option-cases, Result-cases, inl, inr, ◌||◌, ◌∙◌, sym, ap, subst,
}
use go_quant_tick.Trade.{Time, DecimalOps}
use go_quant_tick.Exchanges.Protocol.{Json}
use go_quant_tick.Exchanges.Runtime.{
  Read, frame, failure, Frame, Offer, taken, cancelled, full, Attempt,
}
use go_quant_tick.Exchanges.Binance.{
  Binance, BinanceError, BinanceTradeMessage, BinanceParsedTrade, parsed_trade, binance_name,
  binance_futures_name, binance_subscription_buffer_limit,
}
use go_quant_tick.Exchanges.Binance.Protocol.{
  BinanceJson, build_parsed_trade, parse_trade_payload, parse_trade_message, required,
  binance_buyer_is_maker, check_stream, parse_binance_subscription_response, unwrap_trade_message,
  binance_event_type, is_of_stream,
}
use go_quant_tick.Exchanges.Binance.Recovery.{
  Recovered, is_empty, recover_symbols, sorted_symbols, recovered_less, recover_trades,
  recover_futures_trades, recover_futures_symbol, recover_spot_symbol, BinanceSpotRecoveryTrade,
}
use go_quant_tick.Exchanges.Binance.Recovery.Consecutive.{Consecutive, build_parsed_trade_event}
use go_quant_tick.Exchanges.Binance.Recovery.Gapless.{
  recover_futures_symbol-Consecutive, recover_spot_symbol-Consecutive,
}
use go_quant_tick.Exchanges.Binance.Session.{
  Handled, parsed_frame, failed, acknowledged, skipped, trade, await_handled, read_handled,
  Subscribed, handle_frame, await_subscription, start_trade_reader,
}
use go_quant_tick.Exchanges.Binance.Once.{IsParsed, OfMarket}

required-some {ℓ} :
    {A : Type ℓ} (e : BinanceError) (o : Option A) (a : A) → required e o ≡ ok a → o ≡ some a
unfolding required
required-some e none a h = cc
required-some e (some b) a h = cc

-- The IDs of a message are int64.
pub record DecodesInt64 (decode : BinanceJson) : Type 0 where
  pub ids :
      (payload : Text) (msg : BinanceTradeMessage)
      → decode.trade payload ≡ some msg
      → (msg.trade_id < 2 ^ 64) × (msg.aggregate_trade_id < 2 ^ 64)

module _ {D : Type 0} where
  -- A message that is a trade is a parsed one.
  abbrev IsParsedTrade : Handled D → Type 0
  IsParsedTrade handled =
      (ids : Dict Text Word) (parsed : BinanceParsedTrade D)
      → handled ≡ trade parsed ids
      → IsParsed parsed

  await_handled-IsParsed :
      (next : List (BinanceParsedTrade D) → Dict Text Word → Result BinanceError (Subscribed D))
      → ((buffered : List (BinanceParsedTrade D)) (ids : Dict Text Word) (subscribed : Subscribed D)
          → All IsParsed buffered
          → next buffered ids ≡ ok subscribed
          → All IsParsed subscribed.buffered)
      → (reads : List Read) (buffered : List (BinanceParsedTrade D)) (ids : Dict Text Word)
        (handled : Handled D) (subscribed : Subscribed D)
      → IsParsedTrade handled
      → All IsParsed buffered
      → await_handled next reads buffered ids handled ≡ ok subscribed
      → All IsParsed subscribed.buffered
  unfolding await_handled
  await_handled-IsParsed next later reads buffered ids (failed e) subscribed t p h = cc
  await_handled-IsParsed next later reads buffered ids acknowledged subscribed t p h =
      let same : record { buffered = buffered; sequence_ids = ids; unread = reads } ≡ subscribed =
        cc in
      subst (λ (s : Subscribed D). All IsParsed s.buffered) same p
  await_handled-IsParsed next later reads buffered ids skipped subscribed t p h =
      later buffered ids subscribed p h
  await_handled-IsParsed next later reads buffered ids (trade parsed ids') subscribed t p h =
      elim (Bool-cases (leb binance_subscription_buffer_limit (length buffered))) [
        | inl exceeded ↦ cc (rw exceeded at h)
        | inr room ↦
            later (buffered ++ parsed ∷ []) ids' subscribed
              (All-append IsParsed buffered (parsed ∷ []) p (t ids' parsed refl, tt)) (rw room at h)
      ]

  read_handled-IsParsed :
      (next : Dict Text Word → List (BinanceParsedTrade D) × Option BinanceError)
      → ((ids : Dict Text Word) → All IsParsed (next ids).0)
      → (offer : Offer) (ids : Dict Text Word) (handled : Handled D) → IsParsedTrade handled
      → All IsParsed (read_handled next offer ids handled).0
  unfolding read_handled
  read_handled-IsParsed next later offer ids (failed e) t = tt
  read_handled-IsParsed next later offer ids acknowledged t = later ids
  read_handled-IsParsed next later offer ids skipped t = later ids
  read_handled-IsParsed next later taken ids (trade parsed ids') t =
      (t ids' parsed refl, later ids')
  read_handled-IsParsed next later cancelled ids (trade parsed ids') t = tt
  read_handled-IsParsed next later full ids (trade parsed ids') t = tt

  recover_symbols-IsParsed :
      (b : Binance) (recover : Text → Word → Dict Text Word → Recovered D)
      → ((symbol : Text) (from : Word) (ids : Dict Text Word)
          → from < 2 ^ 64
          → All IsParsed (recover symbol from ids).rows)
      → (symbols : List Text) (ids : Dict Text Word)
      → All IsParsed (recover_symbols b recover symbols ids).0
  unfolding recover_symbols
  recover_symbols-IsParsed b recover h [] ids = tt
  recover_symbols-IsParsed b recover h (symbol ∷ symbols) ids =
      elim (Option-cases (lookup symbol b.last_ids)) [
        | inl e ↦ rw (e, recover_symbols) (recover_symbols-IsParsed b recover h symbols ids)
        | inr (last_id, e) ↦
            rw (e, recover_symbols)
              (All-append IsParsed _ _ (h symbol (int_add last_id 1) ids (int_add-lt last_id 1)) (
                recover_symbols-IsParsed b recover h symbols
                  (recover symbol (int_add last_id 1) ids).sequence_ids))
      ]

  sorted_symbols-IsParsed :
      (b : Binance) (recover : Text → Word → Dict Text Word → Recovered D)
      → ((symbol : Text) (from : Word) (ids : Dict Text Word)
          → from < 2 ^ 64
          → All IsParsed (recover symbol from ids).rows)
      → All IsParsed (sorted_symbols b recover).0
  unfolding sorted_symbols stable_sort
  sorted_symbols-IsParsed b recover h =
      All-insert_all recovered_less IsParsed [] _ tt
        (recover_symbols-IsParsed b recover h b.symbols b.last_ids)

  unless-All :
      (stops : Bool) (found : List (BinanceParsedTrade D) × List BinanceError)
      → All IsParsed found.0
      → All IsParsed (if stops then ([], []) else found).0
  unless-All true found h = tt
  unless-All false found h = h

spot_stream :
    (b : Binance)
    → OfMarket b
    → text_eq b.name binance_futures_name ≡ false
    → b.stream ≡ bytes "trade"
spot_stream b (inl futures) h = cc ((text_eq_iff b.name binance_futures_name).1 futures, h)
spot_stream b (inr stream) h = stream

module _ (D : Type 0) ⦃ops : DecimalOps D⦄ where
  build_parsed_trade-IsParsed :
      (b : Binance) (msg : BinanceTradeMessage) (maker : Bool) (received_at : Time)
      (ids ids' : Dict Text Word) (parsed : BinanceParsedTrade D)
      → (msg.trade_id < 2 ^ 64) × (msg.aggregate_trade_id < 2 ^ 64)
      → build_parsed_trade b msg maker received_at ids ≡ ok (parsed, ids')
      → IsParsed parsed
  unfolding build_parsed_trade parsed_trade
  build_parsed_trade-IsParsed b msg maker received_at ids ids' parsed int64 h = record {
    of_uid = (build_parsed_trade_event b msg maker received_at ids ids' parsed h).1;
    is_int64 = ground arith;
  }

  Consecutive-IsParsed :
      (symbol : Text) (from : Word) (rows : List (BinanceParsedTrade D))
      → from < 2 ^ 64
      → Consecutive symbol from rows
      → All IsParsed rows
  Consecutive-IsParsed symbol from [] h k = tt
  Consecutive-IsParsed symbol from (row ∷ rows) h k = (
    record { of_uid = k.0.of_uid ∙ ap format_int (sym k.0.of_id); is_int64 = rw (k.0.of_id) h },
    Consecutive-IsParsed symbol (int_add from 1) rows (int_add-lt from 1) k.1,
  )

  module _ ⦃json : Json⦄ (decode : BinanceJson) (int64 : DecodesInt64 decode) where
    parse_trade_payload-IsParsed :
        (b : Binance) (payload combined_stream : Text) (received_at : Time)
        (ids ids' : Dict Text Word) (parsed : BinanceParsedTrade D)
        → parse_trade_payload decode b payload combined_stream received_at ids ≡ ok (parsed, ids')
        → IsParsed parsed
    unfolding parse_trade_payload
    parse_trade_payload-IsParsed b payload combined_stream received_at ids ids' parsed h =
        let (msg, read, h1) = both_ok (required _ (decode.trade payload)) _ h in
        let (checked, c, h2) = both_ok (check_stream b combined_stream msg.symbol) _ h1 in
        let (maker, m, h3) = both_ok (binance_buyer_is_maker payload) _ h2 in
        build_parsed_trade-IsParsed b msg maker received_at ids ids' parsed
          (int64.ids payload msg (required-some _ (decode.trade payload) msg read)) h3

    parse_trade_message-IsParsed :
        (b : Binance) (payload : Text) (received_at : Time) (ids ids' : Dict Text Word)
        (parsed : BinanceParsedTrade D)
        → parse_trade_message decode b payload received_at ids ≡ ok (some (parsed, ids'))
        → IsParsed parsed
    unfolding parse_trade_message
    parse_trade_message-IsParsed b payload received_at ids ids' parsed h =
        let (unwrapped, u, h1) = both_ok (unwrap_trade_message decode b payload) _ h in
        let (event_type, e, h2) = both_ok (binance_event_type unwrapped.0) _ h1 in
        elim (Bool-cases (is_of_stream b event_type)) [
          | inr other ↦ cc (rw other at h2)
          | inl same ↦
              let (found, parse, h4) =
                both_ok (parse_trade_payload decode b unwrapped.0 unwrapped.1 received_at ids)
                  (λ trade. ok (some trade)) (rw same at h2) in
              let same_trade : found ≡ (parsed, ids') = cc in
              parse_trade_payload-IsParsed b unwrapped.0 unwrapped.1 received_at ids ids' parsed
                (parse ∙ ap ok same_trade)
        ]

    parsed_frame-IsParsed :
        (b : Binance) (payload : Text) (received_at : Time) (ids ids' : Dict Text Word)
        (r : Result BinanceError (Option (BinanceParsedTrade D × Dict Text Word)))
        (parsed : BinanceParsedTrade D)
        → parse_trade_message decode b payload received_at ids ≡ r
        → parsed_frame r ≡ trade parsed ids'
        → IsParsed parsed
    unfolding parsed_frame
    parsed_frame-IsParsed b payload received_at ids ids' (err e) parsed q h = cc
    parsed_frame-IsParsed b payload received_at ids ids' (ok none) parsed q h = cc
    parsed_frame-IsParsed b payload received_at ids ids' (ok (some (found, ids''))) parsed q h =
        let same : found ≡ parsed = cc in
        rw (← same) (parse_trade_message-IsParsed b payload received_at ids ids'' found q)

    handle_frame-IsParsed :
        (b : Binance) (message : Frame) (ids ids' : Dict Text Word) (parsed : BinanceParsedTrade D)
        → handle_frame decode b message ids ≡ trade parsed ids'
        → IsParsed parsed
    unfolding handle_frame
    handle_frame-IsParsed b message ids ids' parsed h = elim (Bool-cases message.is_data) [
      | inr other ↦ cc (rw other at h)
      | inl is_data ↦ elim (Result-cases (parse_binance_subscription_response message.payload)) [
        | inr (e, refused) ↦ cc (rw (is_data, refused, handle_frame) at h)
        | inl (true, ack) ↦ cc (rw (is_data, ack, handle_frame) at h)
        | inl (false, no_ack) ↦
            parsed_frame-IsParsed b message.payload message.received_at ids ids' _ parsed refl
              (rw (is_data, no_ack, handle_frame) at h)
      ]
    ]

    pub await_subscription-IsParsed :
        (b : Binance) (reads : List Read) (buffered : List (BinanceParsedTrade D))
        (ids : Dict Text Word) (subscribed : Subscribed D)
        → All IsParsed buffered
        → await_subscription decode b reads buffered ids ≡ ok subscribed
        → All IsParsed subscribed.buffered
    unfolding await_subscription
    await_subscription-IsParsed b [] buffered ids subscribed p h = cc
    await_subscription-IsParsed b (failure ended timed_out normal_close ∷ reads) buffered ids
          subscribed p h =
        cc
    await_subscription-IsParsed b (frame message ∷ reads) buffered ids subscribed p h =
        await_handled-IsParsed (await_subscription decode b reads)
          (await_subscription-IsParsed b reads) reads buffered ids
          (handle_frame decode b message ids) subscribed (handle_frame-IsParsed b message ids) p h

    pub start_trade_reader-IsParsed :
        (b : Binance) (reads : List Read) (ids : Dict Text Word)
        → All IsParsed (start_trade_reader {D = D} decode b reads ids).0
    unfolding start_trade_reader
    start_trade_reader-IsParsed b [] ids = tt
    start_trade_reader-IsParsed b (failure ended timed_out normal_close ∷ reads) ids = tt
    start_trade_reader-IsParsed b (frame message ∷ reads) ids =
        read_handled-IsParsed (start_trade_reader decode b reads)
          (start_trade_reader-IsParsed b reads) message.offer ids
          (handle_frame decode b message ids) (handle_frame-IsParsed b message ids)

    pub recover_trades-IsParsed :
        (b : Binance) (futures : Text → List (Attempt (List Text)))
        (spot : Text → List (Attempt (List BinanceSpotRecoveryTrade)))
        → OfMarket b
        → All IsParsed (recover_trades {D = D} decode b futures spot).0
    unfolding recover_trades recover_futures_trades
    recover_trades-IsParsed b futures spot market =
        let from_futures : Text → Word → Dict Text Word → Recovered D =
          λ symbol. recover_futures_symbol b symbol decode (futures symbol) in
        let from_spot : Text → Word → Dict Text Word → Recovered D =
          λ symbol. recover_spot_symbol b symbol (spot symbol) in
        elim (Bool-cases (text_eq b.name binance_futures_name)) [
          | inl is_futures ↦ rw is_futures (
              unless-All (is_empty b.last_ids) (sorted_symbols b from_futures) (
                sorted_symbols-IsParsed b from_futures (λ symbol from ids h.
                  Consecutive-IsParsed symbol from (from_futures symbol from ids).rows h (
                    recover_futures_symbol-Consecutive D b symbol decode (futures symbol) from
                      ids))))
          | inr not_futures ↦
              let stream : b.stream ≡ bytes "trade" = spot_stream b market not_futures in
              rw not_futures (
                unless-All (not (text_eq b.name binance_name) || is_empty b.last_ids)
                  (sorted_symbols b from_spot)
                  (sorted_symbols-IsParsed b from_spot (λ symbol from ids h.
                    Consecutive-IsParsed symbol from (from_spot symbol from ids).rows h
                      (recover_spot_symbol-Consecutive D b symbol (spot symbol) from ids stream))))
        ]
