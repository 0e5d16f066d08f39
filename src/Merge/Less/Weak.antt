-- ===== src/Merge/Less/Weak.antt =====
-- webSocketDataTradeLess of quanttick/websocket_data_merge.go as an order, on trades with numbers
-- for UIDs and on the venues with opaque UIDs.
use go_quant_tick.Common.{
  ℕ, ◌≡◌, ◌<◌, ◌^◌, true, false, some, Text, text_eq, bytes, parse_int, ltb, if◌then◌else◌, arith,
  Bool-cases, inl, inr, ◌⊎◌, IsWeakOrder, ◌&&◌, text_eq_iff, subst,
}
use go_quant_tick.Trade.{TradeEvent}
use go_quant_tick.Stream.{Stream, raw_trades}
use go_quant_tick.Merge.Less.{
  bitfinex_uid_less, trade_uid_less, has_opaque_uids, web_socket_data_trade_less, HasNumber,
}
use go_quant_tick.Merge.Less.Order.{lex, lex_asymm, lex_trans}

bitfinex_uid_less_numbers :
    (l r : Text) (m n : ℕ)
    → parse_int l ≡ some m
    → parse_int r ≡ some n
    → bitfinex_uid_less l r ≡ ltb m n
unfolding bitfinex_uid_less
bitfinex_uid_less_numbers l r m n h k = ground arith

trade_uid_less_numbers :
    (l r : Text) (m n : ℕ)
    → parse_int l ≡ some m
    → parse_int r ≡ some n
    → trade_uid_less l r ≡ ltb m n
unfolding trade_uid_less
trade_uid_less_numbers l r m n h k = ground arith

-- The bucket sorts these trades: the UID is a number, or the venue's UIDs are not compared, and
-- the nanoseconds are a value of `int`.
abbrev pub IsSortable : {D : Type 0} → Text → TradeEvent D → Type 0
IsSortable exchange t = ((has_opaque_uids exchange ≡ true) ⊎ HasNumber t) × (t.nanoseconds < 2 ^ 64)

opaque-ne-bitfinex :
    (exchange : Text)
    → has_opaque_uids exchange ≡ true
    → text_eq exchange (bytes "bitfinex") ≡ false
unfolding has_opaque_uids
opaque-ne-bitfinex exchange h = elim (Bool-cases (text_eq exchange (bytes "bitfinex"))) [
  | inl e ↦
      let same : exchange ≡ bytes "bitfinex" = (text_eq_iff exchange (bytes "bitfinex")).0 e in
      cc (subst (λ x. has_opaque_uids x ≡ true) same h)
  | inr e ↦ e
]

module _ {D : Type 0} (exchange : Text) (stream : Stream) where
  less_numbers :
      (a b : TradeEvent D) (m n : ℕ)
      → has_opaque_uids exchange ≡ false
      → parse_int a.uid ≡ some m
      → parse_int b.uid ≡ some n
      → web_socket_data_trade_less exchange stream a b ≡ (
          if text_eq exchange (bytes "bitfinex") && text_eq stream raw_trades
          then ltb m n
          else lex a.timestamp a.nanoseconds m b.timestamp b.nanoseconds n)
  unfolding web_socket_data_trade_less lex
  less_numbers a b m n o h k =
      rw (
        o,
        bitfinex_uid_less_numbers a.uid b.uid m n h k,
        trade_uid_less_numbers a.uid b.uid m n h k,
      )

  less_opaque :
      (a b : TradeEvent D)
      → has_opaque_uids exchange ≡ true
      → web_socket_data_trade_less exchange stream a b
        ≡ lex a.timestamp a.nanoseconds 0 b.timestamp b.nanoseconds 0
  unfolding web_socket_data_trade_less lex
  less_opaque a b o = ground (arith, opaque-ne-bitfinex exchange o, o)

  asymm_numbers :
      (a b : TradeEvent D) (m n : ℕ)
      → has_opaque_uids exchange ≡ false
      → parse_int a.uid ≡ some m
      → parse_int b.uid ≡ some n
      → web_socket_data_trade_less exchange stream a b ≡ true
      → web_socket_data_trade_less exchange stream b a ≡ false
  asymm_numbers a b m n o e f h = ground (
    arith,
    less_numbers a b m n o e f,
    less_numbers b a n m o f e,
    lex_asymm a.timestamp a.nanoseconds m b.timestamp b.nanoseconds n,
  )

  trans_numbers :
      (a b c : TradeEvent D) (m n l : ℕ)
      → a.nanoseconds < 2 ^ 64
      → b.nanoseconds < 2 ^ 64
      → c.nanoseconds < 2 ^ 64
      → has_opaque_uids exchange ≡ false
      → parse_int a.uid ≡ some m
      → parse_int b.uid ≡ some n
      → parse_int c.uid ≡ some l
      → web_socket_data_trade_less exchange stream a b ≡ false
      → web_socket_data_trade_less exchange stream b c ≡ false
      → web_socket_data_trade_less exchange stream a c ≡ false
  trans_numbers a b c m n l pa pb pc o e f g h k = ground (
    arith,
    less_numbers a b m n o e f,
    less_numbers b c n l o f g,
    less_numbers a c m l o e g,
    lex_trans a.timestamp a.nanoseconds m b.timestamp b.nanoseconds n c.timestamp c.nanoseconds l pa
        pb pc,
  )

  number_of :
      (a : TradeEvent D) → has_opaque_uids exchange ≡ false → IsSortable exchange a → HasNumber a
  number_of a o (inl h, b) = cc
  number_of a o (inr n, b) = n

  -- The test for "stands before" on these trades is asymmetric, and "does not stand behind" is
  -- transitive.
  pub web_socket_data_trade_less-IsWeakOrder :
      IsWeakOrder (web_socket_data_trade_less {D = D} exchange stream) (IsSortable exchange)
  web_socket_data_trade_less-IsWeakOrder = record {
    asymm = λ a b pa pb h. elim (Bool-cases (has_opaque_uids exchange)) [
      | inl o ↦ rw (less_opaque b a o) (
          lex_asymm a.timestamp a.nanoseconds 0 b.timestamp b.nanoseconds 0
            (rw (less_opaque a b o) at h))
      | inr o ↦
          let (m, e) = number_of a o pa in
          let (n, f) = number_of b o pb in asymm_numbers a b m n o e f h
    ];
    trans = λ a b c pa pb pc h k. elim (Bool-cases (has_opaque_uids exchange)) [
      | inl o ↦ rw (less_opaque a c o) (
          lex_trans a.timestamp a.nanoseconds 0 b.timestamp b.nanoseconds 0 c.timestamp
            c.nanoseconds 0 pa.1 pb.1 pc.1 (rw (less_opaque a b o) at h)
            (rw (less_opaque b c o) at k))
      | inr o ↦
          let (m, e) = number_of a o pa in
          let (n, f) = number_of b o pb in
          let (l, g) = number_of c o pc in trans_numbers a b c m n l pa.1 pb.1 pc.1 o e f g h k
    ];
  }

  -- On trades that can be sorted the order is transitive, and the last of three in this order does not
  -- stand before the first. A trade can be sorted where its venue has opaque UIDs or its own UID is a
  -- number, and its nanoseconds are a value of an int.
  pub web_socket_data_trade_less_trans :
      (a b c : TradeEvent D)
      → IsSortable exchange a
      → IsSortable exchange b
      → IsSortable exchange c
      → web_socket_data_trade_less exchange stream a b ≡ true
      → web_socket_data_trade_less exchange stream b c ≡ true
      → (web_socket_data_trade_less exchange stream a c ≡ true)
        × (web_socket_data_trade_less exchange stream c a ≡ false)
  web_socket_data_trade_less_trans a b c pa pb pc h k =
      let order = web_socket_data_trade_less-IsWeakOrder in
      let above : web_socket_data_trade_less exchange stream a c ≡ true =
        elim (Bool-cases (web_socket_data_trade_less exchange stream a c)) [
          | inl e ↦ e
          | inr e ↦ cc (order.trans a c b pa pc pb e (order.asymm b c pb pc k), h)
        ] in
      (above, order.asymm a c pa pc above)
