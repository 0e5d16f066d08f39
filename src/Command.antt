-- ===== src/Command.antt =====
-- cmd/quanttick/main.go: how far the buckets of a market are flushed behind its trades, the text of
-- the environment's lists, and the merge of thresholds.
pub mod Split
pub mod Trim
pub mod Csv
use go_quant_tick.Common.{
  ℕ, zero, suc, ◌+◌, ◌≡◌, ◌≤◌, ◌<◌, Bool, true, false, ◌||◌, not, Option, none, some, List, [], ◌∷◌,
  ◌++◌, Text, text_eq, text_Eq, ltb, if◌then◌else◌, Dict, lookup, insert, lookup-insert, trim_space,
  cut, arith, refl, Bool-cases, Option-cases, inl, inr, ◌==◌, ◌∙◌, ap, eq_iff, eq_self, All, length,
}
use go_quant_tick.Trade.{Time, TradeEvent, exchange_symbol_key}
use go_quant_tick.Stream.{raw_trades, aggregated_trades, significant_trades}

module _ {D : Type 0} where
  -- `updateFlushWatermark`: the watermarks and the time up to which the market is flushed
  unfoldable pub update_flush_watermark : Dict Text Time → TradeEvent D → Dict Text Time × Time
  update_flush_watermark watermarks trade =
      let key = exchange_symbol_key trade.exchange trade.symbol in
      elim (lookup key watermarks) [
        | none ↦ (insert key trade.timestamp watermarks, trade.timestamp)
        | some watermark ↦
            if ltb trade.timestamp watermark
            then (watermarks, watermark)
            else (insert key trade.timestamp watermarks, trade.timestamp)
      ]

-- strings.Split at commas, and what `parseCSV` keeps of the parts; fuel is the length of the text,
-- which is longer than what stands behind a comma
unfoldable pub split_from : ℕ → Text → List Text
split_from zero value = value ∷ []
split_from (suc fuel) value = elim (cut b',' value) [
  | none ↦ value ∷ []
  | some (part, rest) ↦ part ∷ split_from fuel rest
]

unfoldable pub keep_parts : List Text → List Text
keep_parts [] = []
keep_parts (part ∷ parts) =
    let rest = keep_parts parts in
    if not (text_eq (trim_space part) []) then trim_space part ∷ rest else rest

unfoldable pub parse_csv : Text → List Text
parse_csv value = keep_parts (split_from (length value) value)

-- `mergeThresholds`: the range over a map has no order, and the keys of `src` are distinct
unfoldable pub merge_thresholds : {D : Type 0} → Dict Text D → Dict Text D → Dict Text D
merge_thresholds dst [] = dst
merge_thresholds dst ((key, threshold) ∷ src) = merge_thresholds (insert key threshold dst) src

-- `streams[stream]`, false for a missing key
unfoldable pub is_selected : Dict Text Bool → Text → Bool
is_selected streams stream = elim (lookup stream streams) [ none ↦ false | some b ↦ b ]

unfoldable pub has_trade_streams : Dict Text Bool → Bool
has_trade_streams streams =
    is_selected streams raw_trades
    || is_selected streams aggregated_trades
    || is_selected streams significant_trades

abbrev pub watermark_at : Text → Dict Text Time → Time
watermark_at key watermarks = elim (lookup key watermarks) [ none ↦ 0 | some t ↦ t ]

abbrev pub later : Time → Time → Time
later a b = if ltb a b then b else a

module _ {D : Type 0} where
  update_flush_watermark_lem :
      (watermarks : Dict Text Time) (trade : TradeEvent D) (key : Text)
      → ((update_flush_watermark watermarks trade).1
          ≡ later
              (watermark_at (exchange_symbol_key trade.exchange trade.symbol) watermarks)
              trade.timestamp)
        × (watermark_at key (update_flush_watermark watermarks trade).0 ≡ (
            if exchange_symbol_key trade.exchange trade.symbol == key
            then (update_flush_watermark watermarks trade).1
            else watermark_at key watermarks))
  unfolding update_flush_watermark
  update_flush_watermark_lem watermarks trade key =
      elim (Option-cases (lookup (exchange_symbol_key trade.exchange trade.symbol) watermarks)) [
        | inl e ↦ (
          ground arith,
          ground (
            arith,
            lookup-insert (exchange_symbol_key trade.exchange trade.symbol) key trade.timestamp
                watermarks,
          ),
        )
        | inr (t, e) ↦ (
          ground arith,
          ground (
            arith,
            lookup-insert (exchange_symbol_key trade.exchange trade.symbol) key trade.timestamp
                watermarks,
            eq_iff (exchange_symbol_key trade.exchange trade.symbol) key,
          ),
        )
      ]

  -- the calls for some trades, one after the other
  abbrev pub update_each : Dict Text Time → List (TradeEvent D) → Dict Text Time
  update_each watermarks [] = watermarks
  update_each watermarks (trade ∷ trades) =
      update_each (update_flush_watermark watermarks trade).0 trades

  -- the latest of a time and the times of the trades of a market
  abbrev pub latest : Text → Time → List (TradeEvent D) → Time
  latest key time [] = time
  latest key time (trade ∷ trades) =
      if exchange_symbol_key trade.exchange trade.symbol == key
      then later (latest key time trades) trade.timestamp
      else latest key time trades

  latest-later :
      (key : Text) (time at : Time) (trades : List (TradeEvent D))
      → latest key (later time at) trades ≡ later (latest key time trades) at
  latest-later key time at [] = refl
  latest-later key time at (trade ∷ trades) = ground (arith, latest-later key time at trades)

  update_flush_watermark-watermark_at :
      (watermarks : Dict Text Time) (trade : TradeEvent D) (key : Text)
      → watermark_at key (update_flush_watermark watermarks trade).0 ≡ (
          if exchange_symbol_key trade.exchange trade.symbol == key
          then later (watermark_at key watermarks) trade.timestamp
          else watermark_at key watermarks)
  update_flush_watermark-watermark_at watermarks trade key =
      let updated = update_flush_watermark_lem watermarks trade key in
      elim (Bool-cases (exchange_symbol_key trade.exchange trade.symbol == key)) [
        | inr other ↦ updated.1 ∙ rw other refl
        | inl same ↦
            let same_key = (eq_iff (exchange_symbol_key trade.exchange trade.symbol) key).0 same in
            updated.1
            ∙ rw same
                (updated.0 ∙ ap (λ k. later (watermark_at k watermarks) trade.timestamp) same_key)
      ]

  -- After any trades, in whatever order they come, the map has for each market the latest time of its
  -- trades and of what it had, and the time up to which the market of a further trade is flushed is
  -- the latest of those and its own.
  pub update_each-latest :
      (watermarks : Dict Text Time) (trades : List (TradeEvent D)) (trade : TradeEvent D)
      (key : Text)
      → (watermark_at key (update_each watermarks trades)
          ≡ latest key (watermark_at key watermarks) trades)
        × ((update_flush_watermark (update_each watermarks trades) trade).1 ≡ (
            let market = exchange_symbol_key trade.exchange trade.symbol in
            later (latest market (watermark_at market watermarks) trades) trade.timestamp))
  update_each-latest watermarks trades trade key = (
    at_each trades watermarks key,
    (update_flush_watermark_lem (update_each watermarks trades) trade key).0
        ∙ ap (λ time. later time trade.timestamp)
            (at_each trades watermarks (exchange_symbol_key trade.exchange trade.symbol)),
  )
    where
      at_each :
          (trades : List (TradeEvent D)) (watermarks : Dict Text Time) (key : Text)
          → watermark_at key (update_each watermarks trades)
            ≡ latest key (watermark_at key watermarks) trades
      at_each [] watermarks key = refl
      at_each (first ∷ rest) watermarks key =
          at_each rest (update_flush_watermark watermarks first).0 key
          ∙ ap (λ time. latest key time rest)
              (update_flush_watermark-watermark_at watermarks first key)
          ∙ elim (Bool-cases (exchange_symbol_key first.exchange first.symbol == key)) [
            | inr other ↦ rw other refl
            | inl same ↦
                rw same (latest-later key (watermark_at key watermarks) first.timestamp rest)
          ]
