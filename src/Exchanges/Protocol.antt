-- ===== src/Exchanges/Protocol.antt =====
-- quanttick/exchanges/protocol.go, quanttick/exchanges/timestamp.go and parseRawInt64 of
-- quanttick/exchanges/bitfinex.go.
use go_quant_tick.Common.{
  ◌+◌, ◌-◌, ◌*◌, ◌%◌, ◌^◌, ◌≡◌, ◌<◌, Bool, false, ◌&&◌, Option, none, some, List, [], ◌∷◌, Text,
  Word, Dict, bytes, text_eq, trim_space, ltb, nat_eq, if◌then◌else◌, parse_int64, last_of, arith,
}
use go_quant_tick.Trade.{Time, Duration, second, truncate, DecimalOps, parse_decimal}

-- `json.Unmarshal` into a map and a list of raw messages, a string, an int64 and a bool.
pub record Json : Type 0 where
  pub object : Text → Option (Dict Text Text)
  pub array : Text → Option (List Text)
  pub text : Text → Option Text
  pub int64 : Text → Option Word
  pub boolean : Text → Option Bool

-- `raw` in quotation marks
unfoldable pub is_quoted : Text → Bool
is_quoted [] = false
is_quoted (c ∷ []) = false
is_quoted (c ∷ d ∷ s) = nat_eq c b'"' && nat_eq (last_of d s) b'"'

module _ ⦃json : Json⦄ {D : Type 0} ⦃ops : DecimalOps D⦄ where
  parse_trimmed_decimal : Text → Option D
  unfolding is_quoted
  parse_trimmed_decimal raw =
      if text_eq raw []
      then none
      else if text_eq raw (bytes "null")
      then none
      else if is_quoted raw
      then elim (json.text raw) [ none ↦ none | some value ↦ parse_decimal value ]
      else parse_decimal raw

  unfoldable pub parse_raw_decimal : Text → Option D
  unfolding parse_trimmed_decimal
  parse_raw_decimal raw = parse_trimmed_decimal (trim_space raw)

module _ ⦃json : Json⦄ where
  parse_trimmed_int64 : Text → Option Word
  unfolding is_quoted
  parse_trimmed_int64 raw =
      if text_eq raw []
      then none
      else if is_quoted raw
      then elim (json.text raw) [ none ↦ none | some value ↦ parse_int64 value ]
      else parse_int64 raw

  unfoldable pub parse_raw_int64 : Text → Option Word
  unfolding parse_trimmed_int64
  parse_raw_int64 raw = parse_trimmed_int64 (trim_space raw)

abbrev pub microsecond : Duration
microsecond = 1000

abbrev pub millisecond : Duration
millisecond = 1_000_000

-- the start of Unix time
abbrev unix_epoch : Time
unix_epoch = 62_135_596_800 * second

-- time.UnixMilli, from the zero time of Go on
unfoldable pub unix_milli : Word → Time
unix_milli milli =
    if ltb milli (2 ^ 63)
    then unix_epoch + milli * millisecond
    else unix_epoch - (2 ^ 64 - milli) * millisecond

-- time.Unix(0, nanoseconds), for a time since then
unfoldable pub unix_nano : Word → Time
unix_nano nanoseconds = unix_epoch + nanoseconds

-- `splitEventTimestamp`
unfoldable pub split_event_timestamp : Time → Time × Word
split_event_timestamp timestamp = (truncate microsecond timestamp, timestamp % second % microsecond)

-- A split timestamp is the whole again, in microseconds and fewer nanoseconds than one.
pub split_event_timestamp_lem :
    (timestamp : Time)
    → ((split_event_timestamp timestamp).0 + (split_event_timestamp timestamp).1 ≡ timestamp)
      × ((split_event_timestamp timestamp).0 % microsecond ≡ 0)
      × ((split_event_timestamp timestamp).1 < microsecond)
unfolding split_event_timestamp
split_event_timestamp_lem timestamp = (omega arith, omega arith, omega arith)
