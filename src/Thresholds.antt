-- ===== src/Thresholds.antt =====
-- quanttick/symbol_thresholds.go: the symbols of an exchange, with thresholds, from the environment.
use go_quant_tick.Common.{
  Option, none, some, List, [], ◌∷◌, ◌++◌, Text, text_eq, text_Eq, if◌then◌else◌, Result, ok, err,
  ◌>>=◌, Dict, insert, trim_space, cut, cut_last,
}
use go_quant_tick.Trade.{DecimalOps, exchange_symbol_key, parse_decimal}

pub record SymbolThresholds (D : Type 0) : Type 0 where
  pub symbols : List Text
  pub thresholds : Dict Text D

pub data ThresholdError : Type 0 where
  symbol_required : Text → ThresholdError
  threshold_required : Text → ThresholdError
  must_use_equals : Text → ThresholdError
  parse_threshold : Text → ThresholdError

module _ {D : Type 0} ⦃ops : DecimalOps D⦄ where
  -- the symbol, and the threshold where there is one
  unfoldable pub parse_explicit_symbol_threshold :
      Text → Text → Text → Result ThresholdError (Text × Option D)
  parse_explicit_symbol_threshold value symbol threshold_value =
      if text_eq (trim_space threshold_value) []
      then err (threshold_required value)
      else elim (parse_decimal (trim_space threshold_value)) [
        | none ↦ err (parse_threshold (trim_space symbol))
        | some threshold ↦ ok (trim_space symbol, some threshold)
      ]

  -- the part of `parseSymbolThreshold` for a value with no equals sign
  unfoldable pub parse_plain_symbol : Text → Result ThresholdError (Text × Option D)
  parse_plain_symbol value = elim (cut_last b':' value) [
    | none ↦ ok (trim_space value, none)
    | some (before, after) ↦
        if text_eq (trim_space after) []
        then err (threshold_required value)
        else elim (parse_decimal {D = D} (trim_space after)) [
          | some threshold ↦ err (must_use_equals value)
          | none ↦ ok (trim_space value, none)
        ]
  ]

  unfoldable pub parse_symbol_threshold : Text → Result ThresholdError (Text × Option D)
  parse_symbol_threshold value = elim (cut b'=' value) [
    | some (symbol, threshold_value) ↦ parse_explicit_symbol_threshold value symbol threshold_value
    | none ↦ parse_plain_symbol value
  ]

  -- a round of the loop of `ParseSymbolThresholds`, for a value that is not blank
  unfoldable pub add_symbol_threshold :
      Text → SymbolThresholds D → Text → Result ThresholdError (SymbolThresholds D)
  add_symbol_threshold exchange config value = parse_symbol_threshold value >>= λ parsed.
      if text_eq parsed.0 []
      then err (symbol_required value)
      else ok (record {
        symbols = config.symbols ++ parsed.0 ∷ [];
        thresholds = elim parsed.1 [
          | none ↦ config.thresholds
          | some threshold ↦
              insert (exchange_symbol_key exchange parsed.0) threshold config.thresholds
        ];
      })

  unfoldable pub add_symbol_thresholds :
      Text → SymbolThresholds D → List Text → Result ThresholdError (SymbolThresholds D)
  add_symbol_thresholds exchange config [] = ok config
  add_symbol_thresholds exchange config (value ∷ values) =
      let rest = add_symbol_thresholds exchange config values in
      if text_eq (trim_space value) []
      then rest
      else (add_symbol_threshold exchange config (trim_space value) >>= λ next.
          add_symbol_thresholds exchange next values)

  unfoldable pub parse_symbol_thresholds :
      Text → List Text → Result ThresholdError (SymbolThresholds D)
  parse_symbol_thresholds exchange values =
      add_symbol_thresholds exchange (record { symbols = []; thresholds = [] }) values
