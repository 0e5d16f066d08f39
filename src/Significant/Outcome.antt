-- ===== src/Significant/Outcome.antt =====
-- `Add` of quanttick/significant_aggregator.go as a whole.
use go_quant_tick.Common.{
  ℕ, ◌+◌, ◌*◌, ◌/◌, ◌≤◌, ◌<◌, ◌⊎◌, arith, sym, insert, lookup-insert, ◌==◌, eq_iff, subst, ◌≡◌, ◌∙◌,
  ap, true, none, some, List, [], ◌∷◌, ◌++◌, Text, text_Eq, ok, refl, ◌>>=◌, Bool-cases,
  Option-cases, lookup, inl, inr, leb, ltb, if◌then◌else◌, Dict,
}
use go_quant_tick.Trade.{Duration, minute, DecimalOps, Time, TradeEvent, trade_key}
use go_quant_tick.Aggregator.{pending}
use go_quant_tick.Aggregator.Pending.{pending-insert}
use go_quant_tick.Significant.{
  SignificantTradeAggregator, Stepped, Window, get_significant_trade_or_tick, is_significant,
  add_in, touch, add, add_touched, set_window, threshold_for,
}
use go_quant_tick.Significant.Segments.{Segment, tick_of, IsSegment, aggregate_lem}
use go_quant_tick.Significant.Accounts.{IsWellFormed, held, with_held-IsWellFormed, Emits, closing}
use go_quant_tick.Significant.Adding.{
  closed_by, left_by, window_from, get_significant_trade_or_tick-Emits, roll-held,
}

-- The window of a trade that comes first, or behind the window before: from the whole minute of the
-- trade on, for the duration.
pub record IsOpened (duration : Duration) (timestamp : Time) (win : Window) : Type 0 where
  pub minutes : ℕ
  pub whole : win.start ≡ minute * minutes
  pub from : win.start ≤ timestamp
  pub within : timestamp < win.start + minute
  pub stop : win.stop ≡ win.start + duration

window_from-IsOpened :
    (duration : Duration) (timestamp : Time)
    → IsOpened duration timestamp (window_from duration timestamp)
window_from-IsOpened duration timestamp = record {
  minutes = timestamp / minute;
  whole = omega arith;
  from = omega arith;
  within = omega arith;
  stop = refl;
}

module _ {D : Type 0} ⦃ops : DecimalOps D⦄ where
  -- A late trade is a segment of its own.
  unfoldable pub alone : SignificantTradeAggregator D → TradeEvent D → Segment D
  alone a trade = record {
    first = trade;
    rest = [];
    found = if is_significant a trade then some trade else none;
  }

  alone-IsSegment :
      (a : SignificantTradeAggregator D) (trade : TradeEvent D) → IsSegment a (alone a trade)
  unfolding alone
  alone-IsSegment a trade = elim (Bool-cases (is_significant a trade)) [
    | inl m ↦ inr ([], refl, tt, m, rw m refl)
    | inr q ↦ inl (rw q refl, (q, tt))
  ]

  -- The window that a trade finds: that of its key, or a new one where the key has none.
  abbrev pub Finds : SignificantTradeAggregator D → TradeEvent D → Window → Type 0
  Finds a trade win =
      (lookup (trade_key trade) a.windows ≡ some win)
      ⊎ ((lookup (trade_key trade) a.windows ≡ none)
          × IsOpened a.window_duration trade.timestamp win)

  -- The key of the trade has the window, and the other keys have theirs.
  abbrev pub Windows :
      SignificantTradeAggregator D → TradeEvent D → Window → SignificantTradeAggregator D → Type 0
  Windows a trade win b =
      (j : Text)
      → lookup j b.windows ≡ (if trade_key trade == j then some win else lookup j a.windows)

  -- A trade that joins what is held.
  abbrev pub Joins : SignificantTradeAggregator D → TradeEvent D → Stepped D → Type 0
  Joins a trade r =
      Emits a (trade_key trade) (held (trade_key trade) a ++ trade ∷ [])
        (closed_by a (held (trade_key trade) a) trade) (left_by a (held (trade_key trade) a) trade)
        r

  -- What is held is closed, and then the trade is held alone, or emitted where it is significant.
  abbrev pub Follows : SignificantTradeAggregator D → TradeEvent D → Stepped D → Type 0
  Follows a trade r =
      Emits a (trade_key trade) (held (trade_key trade) a ++ trade ∷ [])
        (closing (held (trade_key trade) a) ++ closed_by a [] trade) (left_by a [] trade) r

  -- What `Add` does, by the time of the trade and the window that it finds.
  pub data Outcome (a : SignificantTradeAggregator D) (trade : TradeEvent D) (r : Stepped D)
      : Type 0 where
    unlimited :
        a.window_duration ≡ 0 → Joins a trade r → r.0.windows ≡ a.windows → Outcome a trade r
    in_window :
        (win : Window)
        → 0 < a.window_duration
        → Finds a trade win
        → win.start ≤ trade.timestamp
        → trade.timestamp < win.stop
        → Joins a trade r
        → Windows a trade win r.0
        → Outcome a trade r
    behind :
        (win next : Window)
        → 0 < a.window_duration
        → Finds a trade win
        → win.start ≤ trade.timestamp
        → win.stop ≤ trade.timestamp
        → Follows a trade r
        → IsOpened a.window_duration trade.timestamp next
        → Windows a trade next r.0
        → Outcome a trade r
    late :
        (win : Window)
        → 0 < a.window_duration
        → lookup (trade_key trade) a.windows ≡ some win
        → trade.timestamp < win.start
        → r.1 ≡ ok (tick_of a true (alone a trade) ∷ [])
        → ((j : Text) → held j r.0 ≡ held j a)
        → Windows a trade win r.0
        → IsWellFormed r.0
        → Outcome a trade r

  -- `Add` with the window that the trade finds, which its key has by now
  module _ (a : SignificantTradeAggregator D) (m : Dict Text (List (TradeEvent D)))
      (wins : Dict Text Window) (trade : TradeEvent D) where
    abbrev touched : SignificantTradeAggregator D
    touched = record a { trades = m; windows = wins }

    module _ (same : (j : Text) → pending j m ≡ held j a) (w : IsWellFormed touched) where
      moved :
          (p q left : List (TradeEvent D)) (segs : List (Segment D)) (r : Stepped D)
          → p ≡ q
          → Emits touched (trade_key trade) p segs left r
          → Emits a (trade_key trade) q segs left r
      unfolding is_significant tick_of threshold_for
      moved p q left segs r e em = record {
        returned = em.returned;
        holds = em.holds;
        accounted = em.accounted ∙ e;
        segments = em.segments;
        well_formed = em.well_formed;
        elsewhere = λ j h. em.elsewhere j h ∙ same j;
      }

      joined :
          Joins a trade (get_significant_trade_or_tick touched trade)
          × ((get_significant_trade_or_tick touched trade).0.windows ≡ wins)
      unfolding is_significant threshold_for
      joined =
          let key = trade_key trade in
          let r = get_significant_trade_or_tick touched trade in
          let g = get_significant_trade_or_tick-Emits touched trade w in
          (
            moved _ _ _ _ r refl (
                subst
                  (λ l.
                    Emits touched key (l ++ trade ∷ []) (closed_by touched l trade)
                      (left_by touched l trade) r)
                  (same key) g.0),
            g.1.0,
          )

      module _ (win : Window) (limited : 0 < a.window_duration) (finds : Finds a trade win)
          (windows : Windows a trade win touched) where
        found :
            Finds a trade win
            → trade.timestamp < win.start
            → lookup (trade_key trade) a.windows ≡ some win
        found (inl e) h = e
        found (inr (e, o)) h = absurd (omega (arith, o.from))

        add_in-Outcome : Outcome a trade (add_in win touched trade)
        unfolding add_in alone is_significant tick_of threshold_for
        add_in-Outcome =
            let key = trade_key trade in
            elim (Bool-cases (ltb trade.timestamp win.start)) [
              | inl e ↦
                  rw (e, add_in)
                    (late win limited (found finds (ground arith)) (ground arith)
                      (ap (λ r. r >>= λ tick. ok (tick ∷ []))
                        (aggregate_lem touched (alone a trade) true (alone-IsSegment a trade)))
                      same windows w)
              | inr e ↦ elim (Bool-cases (ltb trade.timestamp win.stop)) [
                | inl f ↦
                    rw (e, f, add_in)
                      (in_window win limited finds (ground arith) (ground arith) (joined.0)
                        (λ j. ap (lookup j) joined.1 ∙ windows j))
                | inr f ↦
                    let next = window_from a.window_duration trade.timestamp in
                    let rolled = roll-held touched trade (held key a) w (same key) in
                    rw (e, f, add_in)
                      (behind win next limited finds (ground arith) (ground arith)
                        (moved _ _ _ _ _ refl rolled.0)
                        (window_from-IsOpened a.window_duration trade.timestamp)
                        (λ j.
                          ap (lookup j) rolled.1
                          ∙ ground (arith, lookup-insert key j next wins, windows j)))
              ]
            ]

  touch-IsWellFormed :
      (a : SignificantTradeAggregator D) (key : Text) → IsWellFormed a → IsWellFormed (touch a key)
  unfolding touch
  touch-IsWellFormed a key w = elim (Option-cases (lookup key a.trades)) [
    | inl e ↦ rw (e, touch) (with_held-IsWellFormed a key [] w tt)
    | inr (l, e) ↦ rw (e, touch) w
  ]

  held-touch : (a : SignificantTradeAggregator D) (key j : Text) → held j (touch a key) ≡ held j a
  unfolding touch
  held-touch a key j = elim (Option-cases (lookup key a.trades)) [
    | inl e ↦
        rw (e, touch)
          (elim (Bool-cases (key == j)) [
            | inl same ↦
                rw (pending-insert key j [] a.trades, same)
                  (unfold pending in rw (← (eq_iff key j).0 same, e, pending) refl)
            | inr other ↦ rw (pending-insert key j [] a.trades, other) refl
          ])
    | inr (l, e) ↦ rw (e, touch) refl
  ]

  touch_lem :
      (a : SignificantTradeAggregator D) (key : Text)
      → touch a key ≡ record a { trades = (touch a key).trades }
  unfolding touch
  touch_lem a key = elim (Option-cases (lookup key a.trades)) [
    | inl e ↦ rw (e, touch) refl
    | inr (l, e) ↦ rw (e, touch) refl
  ]

  add_touched-Outcome :
      (a : SignificantTradeAggregator D) (m : Dict Text (List (TradeEvent D)))
      (trade : TradeEvent D)
      → ((j : Text) → pending j m ≡ held j a)
      → IsWellFormed (record a { trades = m })
      → Outcome a trade (add_touched (record a { trades = m }) trade)
  unfolding add_touched set_window is_significant threshold_for
  add_touched-Outcome a m trade same w =
      let key = trade_key trade in
      elim (Bool-cases (leb a.window_duration 0)) [
        | inl e ↦
            let both = joined a m a.windows trade same w in
            rw (e, add_touched) (unlimited (ground arith) both.0 both.1)
        | inr e ↦ elim (Option-cases (lookup key a.windows)) [
          | inl f ↦
              let win = window_from a.window_duration trade.timestamp in
              rw (e, f, add_touched)
                (add_in-Outcome a m (insert key win a.windows) trade same
                  (record { at_key = w.at_key }) win (ground arith)
                  (inr (f, window_from-IsOpened a.window_duration trade.timestamp))
                  (λ j. lookup-insert key j win a.windows))
          | inr (win, f) ↦
              rw (e, f, add_touched)
                (add_in-Outcome a m a.windows trade same w win (ground arith) (inl f) (λ j.
                  elim (Bool-cases (key == j)) [
                    | inl here ↦
                        rw here (ap (λ k. lookup k a.windows) (sym ((eq_iff key j).0 here)) ∙ f)
                    | inr there ↦ rw there refl
                  ]))
        ]
      ]

  -- On an aggregator that holds for each key only trades of that key, none of them significant, `Add`
  -- returns no error and leaves such an aggregator, and what it does for the key of the trade is this;
  -- what is held for other keys and their windows do not change. Without a window duration, or where
  -- the trade is in the window that the key has, or in the one that opens with the trade where the key
  -- has none, a significant trade closes one segment of what was held and itself, and any other is
  -- held behind what was held. Where the trade is at or behind the end of that window, what was held
  -- is closed as a segment of its own, the trade comes to an empty list, and the key gets the window
  -- from the whole minute of the trade on, for the duration. Where the trade is before the window that
  -- the key has, it returns the late tick of that trade alone and leaves what is held and the windows
  -- as they were.
  pub add-Outcome :
      (a : SignificantTradeAggregator D) (trade : TradeEvent D)
      → IsWellFormed a
      → Outcome a trade (add a trade)
  unfolding add
  add-Outcome a trade w =
      let key = trade_key trade in
      subst (λ b. Outcome a trade (add_touched b trade)) (sym (touch_lem a key))
        (add_touched-Outcome a (touch a key).trades trade (held-touch a key)
          (subst IsWellFormed (touch_lem a key) (touch-IsWellFormed a key w)))
