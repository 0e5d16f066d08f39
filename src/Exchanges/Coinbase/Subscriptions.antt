-- ===== src/Exchanges/Coinbase/Subscriptions.antt =====
-- The products that acceptSubscriptions of quanttick/exchanges/coinbase_protocol.go accepts.
use go_quant_tick.Common.{
  ◌≡◌, ◌↔◌, true, none, some, List, [], ◌∷◌, Text, text_eq, text_eq_iff, ok, arith, refl,
  Bool-cases, Option-cases, inl, inr, ◌∙◌, sym,
}
use go_quant_tick.Exchanges.Coinbase.{
  Coinbase, CoinbaseSubscriptionChannel, matches_products, is_one_of, first_missing,
  accept_products, accept_subscriptions,
}

-- The two lists have the same texts, in whatever order and however often.
abbrev pub SameTexts : List Text → List Text → Type 0
SameTexts xs ys = (text : Text) → is_one_of text xs ≡ is_one_of text ys

-- All of the first list are in the second.
abbrev Covers : List Text → List Text → Type 0
Covers xs ys = (text : Text) → is_one_of text xs ≡ true → is_one_of text ys ≡ true

first_missing-Covers : (xs ys : List Text) → first_missing xs ys ≡ none → Covers xs ys
unfolding first_missing is_one_of
first_missing-Covers [] ys h text e = cc
first_missing-Covers (x ∷ xs) ys h text e = elim (Bool-cases (is_one_of x ys)) [
  | inr missing ↦ cc (rw missing at h)
  | inl there ↦ elim (Bool-cases (text_eq x text)) [
    | inl same ↦ rw (← (text_eq_iff x text).0 same) there
    | inr apart ↦ first_missing-Covers xs ys (rw there at h) text (rw apart at e)
  ]
]

Covers-first_missing : (xs ys : List Text) → Covers xs ys → first_missing xs ys ≡ none
unfolding first_missing is_one_of
Covers-first_missing [] ys h = refl
Covers-first_missing (x ∷ xs) ys h =
    let there : is_one_of x ys ≡ true = h x (rw ((text_eq_iff x x).1 refl) refl) in
    rw there (Covers-first_missing xs ys (λ text e. h text (ground (arith, e))))

both_ways : (xs ys : List Text) → Covers xs ys → Covers ys xs → SameTexts xs ys
both_ways xs ys h k text = ground (arith, h text, k text)

accept_products_iff :
    (c : Coinbase) (products : List Text)
    → (accept_products c products ≡ ok (record c { subscribed = true }))
      ↔ SameTexts products c.symbols
unfolding accept_products
accept_products_iff c products = (
  λ accepted. elim (Option-cases (first_missing c.symbols products)) [
    | inr (product, e) ↦ cc (rw (e, accept_products) at accepted)
    | inl asked ↦ elim (Option-cases (first_missing products c.symbols)) [
      | inr (product, e) ↦ cc (rw (asked, e, accept_products) at accepted)
      | inl given ↦
          both_ways products c.symbols (first_missing-Covers products c.symbols given)
            (first_missing-Covers c.symbols products asked)
    ]
  ],
  λ same.
      rw
        (
          Covers-first_missing c.symbols products (λ text e. same text ∙ e),
          Covers-first_missing products c.symbols (λ text e. sym (same text) ∙ e),
          accept_products,
        )
        refl,
)

-- The adapter takes the answer to its subscription, and is then subscribed, exactly when the answer
-- has a channel with the matches, and the first such channel has the products that were asked for and
-- no others, in whatever order and however often it names them.
pub accept_subscriptions_iff :
    (c : Coinbase) (channels : List CoinbaseSubscriptionChannel)
    → (accept_subscriptions c channels ≡ ok (record c { subscribed = true })) ↔ (
        (products : List Text) × (matches_products channels ≡ some products)
        × SameTexts products c.symbols)
unfolding accept_subscriptions
accept_subscriptions_iff c channels = (
  λ accepted. elim (Option-cases (matches_products channels)) [
    | inl e ↦ cc (rw (e, accept_subscriptions) at accepted)
    | inr (products, e) ↦
        (products, e, (accept_products_iff c products).0 (rw (e, accept_subscriptions) at accepted))
  ],
  λ (products, e, same). rw (e, accept_subscriptions) ((accept_products_iff c products).1 same),
)
