-- ===== src/Exchanges/Binance/Once.antt =====
-- emitParsedTrade of quanttick/exchanges/binance.go, and trades that come again.
use go_quant_tick.Common.{
  ℕ, zero, suc, ◌<◌, ◌^◌, ◌≡◌, Bool, true, false, some, List, [], ◌∷◌, ◌++◌, Text, Word, text_Eq,
  text_eq, text_eq_iff, Dict, lookup, insert, lookup-insert, lookup-insert_self, int_lt, format_int,
  All, All-append, arith, refl, Bool-cases, inl, inr, ◌⊎◌, bytes, ◌∙◌, sym, ap,
}
use go_quant_tick.Common.Integers.Printed.{format_int_injective}
use go_quant_tick.Trade.{TradeEvent}
use go_quant_tick.Exchanges.Runtime.{Channel, send_trade}
use go_quant_tick.Exchanges.Binance.{
  Binance, BinanceParsedTrade, emit_parsed_trade, emit_each, above_last, follows_last,
  binance_futures_name,
}

pub int_lt_stays :
    (previous next old : Word)
    → int_lt previous next ≡ true
    → int_lt previous old ≡ false
    → int_lt next old ≡ false
unfolding int_lt
int_lt_stays previous next old h k = ground arith

-- An adapter of the futures market, or one that reads the stream of the spot market.
abbrev pub OfMarket : Binance → Type 0
OfMarket b = (b.name ≡ binance_futures_name) ⊎ (b.stream ≡ bytes "trade")

pub int_lt_irrefl : (w : Word) → int_lt w w ≡ false
unfolding int_lt
int_lt_irrefl w = ground arith

module _ {D : Type 0} where
  -- The UID of a trade is the print of its ID, which is an int64.
  pub record IsParsed (parsed : BinanceParsedTrade D) : Type 0 where
    pub of_uid : parsed.event.uid ≡ format_int parsed.trade_id
    pub is_int64 : parsed.trade_id < 2 ^ 64

  -- A trade that was sent is not above the last ID of its symbol.
  pub record IsPast (last_ids : Dict Text Word) (event : TradeEvent D) : Type 0 where
    pub trade_id : Word
    pub last_id : Word
    pub of_uid : event.uid ≡ format_int trade_id
    pub is_int64 : trade_id < 2 ^ 64
    pub last_of_symbol : lookup event.symbol last_ids ≡ some last_id
    pub not_above : int_lt last_id trade_id ≡ false

  abbrev pub DiffersFrom : TradeEvent D → TradeEvent D → Type 0
  DiffersFrom event other = (event.symbol ≡ other.symbol) → (event.uid ≡ other.uid) → ⊥

  -- No two trades have both symbol and UID in common.
  abbrev pub AllOnce : List (TradeEvent D) → Type 0
  AllOnce [] = Unit
  AllOnce (event ∷ events) = All (DiffersFrom event) events × AllOnce events

  -- The trades in the channel, each of which was sent once, are up to the last IDs of the adapter,
  -- which reads the stream of its market.
  pub record IsOnce (b : Binance) (channel : Channel D) : Type 0 where
    pub market : OfMarket b
    pub past : All (IsPast b.last_ids) channel.sent
    pub once : AllOnce channel.sent

  AllOnce-append :
      (events : List (TradeEvent D)) (event : TradeEvent D)
      → AllOnce events
      → All (λ other. DiffersFrom other event) events
      → AllOnce (events ++ event ∷ [])
  AllOnce-append [] event h k = (tt, tt)
  AllOnce-append (other ∷ events) event h k = (
    All-append (DiffersFrom other) events (event ∷ []) h.0 (k.0, tt),
    AllOnce-append events event h.1 k.1,
  )

  -- A trade above the last ID of its symbol is none of those that were sent.
  differs :
      (last_ids : Dict Text Word) (parsed : BinanceParsedTrade D) (other : TradeEvent D)
      → IsParsed parsed
      → IsPast last_ids other
      → above_last (lookup parsed.event.symbol last_ids) parsed.trade_id ≡ true
      → DiffersFrom other parsed.event
  unfolding above_last
  differs last_ids parsed other p h above same_symbol same_uid =
      let same_id : h.trade_id ≡ parsed.trade_id =
        format_int_injective h.trade_id parsed.trade_id h.is_int64 p.is_int64
          (sym h.of_uid ∙ same_uid ∙ p.of_uid) in
      let known : lookup parsed.event.symbol last_ids ≡ some h.last_id =
        ap (λ (symbol : Text). lookup symbol last_ids) (sym same_symbol) ∙ h.last_of_symbol in
      let above' : int_lt h.last_id parsed.trade_id ≡ true = rw (known, above_last) at above in
      cc (above', h.not_above, same_id)

  raised :
      (last_ids : Dict Text Word) (parsed : BinanceParsedTrade D) (other : TradeEvent D)
      → IsParsed parsed
      → IsPast last_ids other
      → above_last (lookup parsed.event.symbol last_ids) parsed.trade_id ≡ true
      → IsPast (insert parsed.event.symbol parsed.trade_id last_ids) other
  unfolding above_last
  raised last_ids parsed other p h above =
      elim (Bool-cases (text_eq parsed.event.symbol other.symbol)) [
        | inr apart ↦ record {
          trade_id = h.trade_id;
          last_id = h.last_id;
          of_uid = h.of_uid;
          is_int64 = h.is_int64;
          last_of_symbol =
              lookup-insert parsed.event.symbol other.symbol parsed.trade_id last_ids
              ∙ rw apart h.last_of_symbol;
          not_above = h.not_above;
        }
        | inl same ↦
            let same_symbol : parsed.event.symbol ≡ other.symbol =
              (text_eq_iff parsed.event.symbol other.symbol).0 same in
            let known : lookup parsed.event.symbol last_ids ≡ some h.last_id =
              ap (λ (symbol : Text). lookup symbol last_ids) same_symbol ∙ h.last_of_symbol in
            let above' : int_lt h.last_id parsed.trade_id ≡ true =
              rw (known, above_last) at above in
            record {
              trade_id = h.trade_id;
              last_id = parsed.trade_id;
              of_uid = h.of_uid;
              is_int64 = h.is_int64;
              last_of_symbol =
                  lookup-insert parsed.event.symbol other.symbol parsed.trade_id last_ids
                  ∙ rw same refl;
              not_above = int_lt_stays h.last_id parsed.trade_id h.trade_id above' h.not_above;
            }
      ]

  All-raised :
      (last_ids : Dict Text Word) (parsed : BinanceParsedTrade D) (events : List (TradeEvent D))
      → IsParsed parsed
      → above_last (lookup parsed.event.symbol last_ids) parsed.trade_id ≡ true
      → All (IsPast last_ids) events
      → All (IsPast (insert parsed.event.symbol parsed.trade_id last_ids)) events
  All-raised last_ids parsed [] p above h = tt
  All-raised last_ids parsed (event ∷ events) p above h =
      (raised last_ids parsed event p h.0 above, All-raised last_ids parsed events p above h.1)

  All-differs :
      (last_ids : Dict Text Word) (parsed : BinanceParsedTrade D) (events : List (TradeEvent D))
      → IsParsed parsed
      → above_last (lookup parsed.event.symbol last_ids) parsed.trade_id ≡ true
      → All (IsPast last_ids) events
      → All (λ other. DiffersFrom other parsed.event) events
  All-differs last_ids parsed [] p above h = tt
  All-differs last_ids parsed (event ∷ events) p above h =
      (differs last_ids parsed event p h.0 above, All-differs last_ids parsed events p above h.1)

  -- The two outcomes of a trade above the last ID: the context ends, or the trade is sent.
  module _ (b : Binance) (sequence_ids : Dict Text Word) (parsed : BinanceParsedTrade D)
      (new : above_last (lookup parsed.event.symbol b.last_ids) parsed.trade_id ≡ true) where
    pub emit_new_ended :
        (sent : List (TradeEvent D))
        → emit_parsed_trade (b, sequence_ids, record { sent = sent; room = 0 }) parsed
          ≡ ((b, sequence_ids, record { sent = sent; room = 0 }), false)
    unfolding emit_parsed_trade send_trade
    emit_new_ended sent = rw new refl

    pub emit_new_sent :
        (sent : List (TradeEvent D)) (room : ℕ)
        → emit_parsed_trade (b, sequence_ids, record { sent = sent; room = suc room }) parsed ≡ (
          (
            record b { last_ids = insert parsed.event.symbol parsed.trade_id b.last_ids },
            insert parsed.event.symbol parsed.trade_id sequence_ids,
            record {
              sent =
                  sent
                  ++ record parsed.event {
                    is_sequential =
                        follows_last (lookup parsed.event.symbol b.last_ids) parsed.trade_id;
                  }
                    ∷ [];
              room = room;
            },
          ),
          true,
        )
    unfolding emit_parsed_trade send_trade
    emit_new_sent sent room = rw new refl

  pub emit_old :
      (b : Binance) (sequence_ids : Dict Text Word) (channel : Channel D)
      (parsed : BinanceParsedTrade D)
      → above_last (lookup parsed.event.symbol b.last_ids) parsed.trade_id ≡ false
      → emit_parsed_trade (b, sequence_ids, channel) parsed ≡ ((b, sequence_ids, channel), true)
  unfolding emit_parsed_trade
  emit_old b sequence_ids channel parsed old = rw old refl

  abbrev OnceAfter : (Binance × Dict Text Word × Channel D) × Bool → Type 0
  OnceAfter after = IsOnce after.0.0 after.0.2

  emit_new-IsOnce :
      (b : Binance) (sequence_ids : Dict Text Word) (sent : List (TradeEvent D)) (room : ℕ)
      (parsed : BinanceParsedTrade D)
      → IsParsed parsed
      → above_last (lookup parsed.event.symbol b.last_ids) parsed.trade_id ≡ true
      → IsOnce b (record { sent = sent; room = room })
      → OnceAfter (emit_parsed_trade (b, sequence_ids, record { sent = sent; room = room }) parsed)
  emit_new-IsOnce b sequence_ids sent zero parsed p new o =
      rw (emit_new_ended b sequence_ids parsed new sent) o
  emit_new-IsOnce b sequence_ids sent (suc room) parsed p new o =
      rw (emit_new_sent b sequence_ids parsed new sent room) (record {
        market = o.market;
        past = All-append (IsPast _) sent _ (All-raised b.last_ids parsed sent p new o.past) (
          record {
            trade_id = parsed.trade_id;
            last_id = parsed.trade_id;
            of_uid = p.of_uid;
            is_int64 = p.is_int64;
            last_of_symbol = lookup-insert_self parsed.event.symbol parsed.trade_id b.last_ids;
            not_above = int_lt_irrefl parsed.trade_id;
          },
          tt,
        );
        once = AllOnce-append sent _ o.once (All-differs b.last_ids parsed sent p new o.past);
      })

  emit_parsed_trade-IsOnce :
      (b : Binance) (sequence_ids : Dict Text Word) (channel : Channel D)
      (parsed : BinanceParsedTrade D)
      → IsParsed parsed
      → IsOnce b channel
      → OnceAfter (emit_parsed_trade (b, sequence_ids, channel) parsed)
  emit_parsed_trade-IsOnce b sequence_ids channel parsed p o =
      elim (Bool-cases (above_last (lookup parsed.event.symbol b.last_ids) parsed.trade_id)) [
        | inr old ↦ rw (emit_old b sequence_ids channel parsed old) o
        | inl new ↦ emit_new-IsOnce b sequence_ids channel.sent channel.room parsed p new o
      ]

  pub emit_each-IsOnce :
      (b : Binance) (sequence_ids : Dict Text Word) (channel : Channel D)
      (trades : List (BinanceParsedTrade D))
      → All IsParsed trades
      → IsOnce b channel
      → IsOnce
          (emit_each (b, sequence_ids, channel) trades).0.0
          (emit_each (b, sequence_ids, channel) trades).0.2
  unfolding emit_each
  emit_each-IsOnce b sequence_ids channel [] p o = o
  emit_each-IsOnce b sequence_ids channel (parsed ∷ trades) p o =
      let step = emit_parsed_trade (b, sequence_ids, channel) parsed in
      let once = emit_parsed_trade-IsOnce b sequence_ids channel parsed p.0 o in
      elim (Bool-cases step.1) [
        | inr ended ↦ rw ended once
        | inl delivered ↦ rw delivered (emit_each-IsOnce step.0.0 step.0.1 step.0.2 trades p.1 once)
      ]
