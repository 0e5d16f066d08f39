-- ===== src/Recovery/Throttle.antt =====
-- restThrottle, tradeBacklog and the helpers on recovered trades of
-- quanttick/exchanges/recovery.go.
use go_quant_tick.Common.{
  ℕ, ◌+◌, ◌-◌, ◌≡◌, ◌≤◌, ◌<◌, Bool, true, false, not, Option, none, some, List, [], ◌∷◌, Text,
  text_eq, text_lt, ltb, leb, nat_eq, if◌then◌else◌, reverse, arith, refl, stable_sort, ◌⊎◌, inl,
  inr, Bool-cases,
}
use go_quant_tick.Trade.{Time, Duration, TradeEvent}

pub record RestThrottle : Type 0 where
  pub min_interval : Duration
  pub last_request : Time
  pub next_request : Time

unfoldable pub new_rest_throttle : Duration → RestThrottle
new_rest_throttle min_interval = record {
  min_interval = min_interval;
  last_request = 0;
  next_request = 0;
}

-- the later of the two times before which no request goes out
unfoldable pub allowed_at : RestThrottle → Time
allowed_at t =
    let minimum_at = t.last_request + t.min_interval in
    if ltb t.next_request minimum_at then minimum_at else t.next_request

-- one round of the loop of `wait`: `some` is the time until which it sleeps
unfoldable pub try_request : RestThrottle → Time → RestThrottle × Option Time
try_request t now =
    if not (ltb now (allowed_at t))
    then (record t { last_request = now }, none)
    else (t, some (allowed_at t))

unfoldable pub defer_until : RestThrottle → Time → RestThrottle
defer_until t timestamp =
    if ltb t.next_request timestamp then record t { next_request = timestamp } else t

unfoldable pub defer_for : RestThrottle → Time → Duration → RestThrottle
defer_for t now delay = if leb delay 0 then t else defer_until t (now + delay)

-- The channel of `tradeBacklog` with its capacity, and how many slots are taken.
pub record TradeBacklog : Type 0 where
  pub limit : ℕ
  pub taken : ℕ

unfoldable pub new_trade_backlog : ℕ → ℕ → Option TradeBacklog
new_trade_backlog limit initial =
    if ltb limit initial then none else some (record { limit = limit; taken = initial })

-- `reserve`
unfoldable pub reserve_slot : TradeBacklog → TradeBacklog × Bool
reserve_slot b =
    if ltb b.taken b.limit then (record b { taken = b.taken + 1 }, true) else (b, false)

-- `release`, which waits while no slot is taken: `none`
unfoldable pub release_slot : TradeBacklog → Option TradeBacklog
release_slot b = if ltb 0 b.taken then some (record b { taken = b.taken - 1 }) else none

module _ {D : Type 0} where
  -- the trades before the cursor; the list has the newest first
  unfoldable pub trades_before_cursor : List (TradeEvent D) → Text → Option (List (TradeEvent D))
  trades_before_cursor [] cursor_uid = none
  trades_before_cursor (trade ∷ rest) cursor_uid =
      let more = trades_before_cursor rest cursor_uid in
      if text_eq trade.uid cursor_uid
      then some []
      else elim more [ none ↦ none | some newer ↦ some (trade ∷ newer) ]

  -- `tradesAfterCursorNewestFirst`
  unfoldable pub trades_after_cursor_newest_first :
      List (TradeEvent D) → Text → Option (List (TradeEvent D))
  trades_after_cursor_newest_first trades cursor_uid =
      elim (trades_before_cursor trades cursor_uid) [
        | none ↦ none
        | some newer ↦ some (reverse newer)
      ]

  unfoldable pub chronologically : TradeEvent D → TradeEvent D → Bool
  chronologically left right =
      if not (nat_eq left.timestamp right.timestamp)
      then ltb left.timestamp right.timestamp
      else if not (text_eq left.symbol right.symbol)
      then text_lt left.symbol right.symbol
      else false

  unfoldable pub sort_trade_events_chronologically : List (TradeEvent D) → List (TradeEvent D)
  sort_trade_events_chronologically trades = stable_sort chronologically trades

-- A request is let through only when `min_interval` has passed since the last one, and not before
-- the time up to which requests were deferred; otherwise the throttle is left as it is, and the time
-- that it gives to sleep until is later than now.
pub try_request-Spaced :
    (t : RestThrottle) (now : Time)
    → (((try_request t now).1 ≡ none)
        × (t.last_request + t.min_interval ≤ now)
        × (t.next_request ≤ now)
        × ((try_request t now).0.last_request ≡ now))
      ⊎ ((until : Time) × ((try_request t now).1 ≡ some until)
          × (now < until)
          × ((try_request t now).0 ≡ t))
unfolding try_request
try_request-Spaced t now = elim (Bool-cases (ltb now (allowed_at t))) [
  | inl wait ↦ inr (allowed_at t, rw wait refl, ground arith, rw wait refl)
  | inr pass ↦ inl (
    rw pass refl,
    unfold allowed_at in ground arith,
    unfold allowed_at in ground arith,
    rw pass refl,
  )
]
