-- ===== src/Exchanges/Runtime.antt =====
-- quanttick/exchanges/exchange_runtime.go, and what the adapters read from their connections and
-- from the venues' REST interfaces.
use go_quant_tick.Common.{
  ℕ, zero, suc, Bool, true, false, ◌||◌, Option, none, List, [], ◌∷◌, ◌++◌, Text, ltb, leb,
  if◌then◌else◌,
}
use go_quant_tick.Trade.{Time, Duration, TradeEvent}

-- The channel of an adapter: what went through it, and how many more trades are received from it
-- before the context ends.
pub record Channel (D : Type 0) : Type 0 where
  pub sent : List (TradeEvent D)
  pub room : ℕ

module _ {D : Type 0} where
  -- `sendTrade`: false where the context ends first
  unfoldable pub send_trade : Channel D → TradeEvent D → Channel D × Bool
  send_trade channel trade = elim channel.room [
    | zero ↦ (channel, false)
    | suc room ↦ (record { sent = channel.sent ++ trade ∷ []; room = room }, true)
  ]

-- What becomes of a message that a reader offers to its buffer.
pub data Offer : Type 0 where
  taken : Offer
  cancelled : Offer
  full : Offer

-- A message of a connection. `is_data` says whether its type is text or binary.
pub record Frame : Type 0 where
  pub payload : Text
  pub received_at : Time
  pub is_data : Bool
  pub offer : Offer

-- A message, or the failure to read one: whether the context of the adapter has ended, whether the
-- deadline of the acknowledgement has passed, and whether the venue closed the connection normally.
pub data Read : Type 0 where
  frame : Frame → Read
  failure : (ended timed_out normal_close : Bool) → Read

-- The answer to a request, with a body of `B`: `none` is a body that is not decoded. `retry_after`
-- is what `retryAfterDelay` makes of the header, `none` where it is not understood.
pub record HttpResponse (B : Type 0) : Type 0 where
  pub status_code : ℕ
  pub header : Text → Text
  pub retry_after : Option Duration
  pub received_at : Time
  pub body : Option B

-- A request after the wait of the throttle: it is not sent, or it is answered.
pub data Attempt (B : Type 0) : Type 0 where
  not_sent : Attempt B
  answered : HttpResponse B → Attempt B

-- `decodeRecoveryResponse` of recovery.go
unfoldable pub decode_recovery_response : {B : Type 0} → HttpResponse B → Option B
decode_recovery_response response =
    if ltb response.status_code 200 || leb 300 response.status_code then none else response.body
