-- ===== src/Stream.antt =====
-- The streams of quanttick/pipeline.go, and the buckets and the buffer of
-- quanttick/websocket_data_publisher.go.
use go_quant_tick.Common.{Option, List, Text, bytes, Word, Dict}
use go_quant_tick.Trade.{Time, TradeEvent}
use go_quant_tick.Significant.{SignificantTrade}

abbrev pub Stream : Type 0
Stream = Text

abbrev pub raw_trades : Stream
raw_trades = bytes "raw-trades"

abbrev pub aggregated_trades : Stream
aggregated_trades = bytes "aggregated-trades"

abbrev pub significant_trades : Stream
significant_trades = bytes "significant-trades"

-- `map[string]struct{}`
abbrev pub UidSet : Type 0
UidSet = Dict Text (Unit {0})

pub record WebSocketDataBucket (D : Type 0) : Type 0 where
  pub exchange : Text
  pub api_symbol : Text
  pub significant_trade_filter : Word
  pub timestamp : Time
  pub raw_trades : List (TradeEvent D)
  pub aggregated_trades : List (TradeEvent D)
  pub filtered_trades : List (SignificantTrade D)
  pub raw_trade_uids : Option UidSet
  pub aggregated_trade_uids : Option UidSet
