-- ===== src/Command/Split.antt =====
-- The split at commas in parseCSV of cmd/quanttick/main.go.
use go_quant_tick.Common.{
  ℕ, zero, suc, ◌≡◌, ◌≤◌, ◌<◌, none, some, List, [], ◌∷◌, ◌++◌, Text, nat_eq, cut, arith, refl, sym,
  ap, ◌∙◌, Bool-cases, Option-cases, inl, inr, All, length,
}
use go_quant_tick.Command.{split_from}

-- the parts with commas between them
abbrev pub join : List Text → Text
join [] = []
join (part ∷ []) = part
join (part ∷ next ∷ parts) = part ++ (b',' ∷ join (next ∷ parts))

-- A cut is at the first comma, and what stands behind it is shorter.
record IsCut (value part rest : Text) : Type 0 where
  whole : value ≡ part ++ (b',' ∷ rest)
  first : cut b',' part ≡ none
  shorter : length rest < length value

cut-IsCut : (value part rest : Text) → cut b',' value ≡ some (part, rest) → IsCut value part rest
unfolding cut
cut-IsCut [] part rest h = cc
cut-IsCut (c ∷ value) part rest h = elim (Bool-cases (nat_eq c b',')) [
  | inl e ↦ record { whole = ground arith; first = ground arith; shorter = ground arith }
  | inr e ↦ elim (Option-cases (cut b',' value)) [
    | inl n ↦ ground arith
    | inr (x, n) ↦
        let k = cut-IsCut value x.0 x.1 n in
        record {
          whole = ground (arith, k.whole);
          first = ground (arith, k.first);
          shorter = ground (arith, k.shorter);
        }
  ]
]

length-comma : (part rest : Text) → length rest < length (part ++ (b',' ∷ rest))
length-comma [] rest = omega arith
length-comma (c ∷ part) rest = omega (arith, length-comma part rest)

split_from-nonempty :
    (fuel : ℕ) (value : Text)
    → (part : Text) × (parts : List Text) × (split_from fuel value ≡ part ∷ parts)
unfolding split_from
split_from-nonempty zero value = (value, [], refl)
split_from-nonempty (suc fuel) value = elim (Option-cases (cut b',' value)) [
  | inl e ↦ (value, [], rw (e, split_from) refl)
  | inr (x, e) ↦ (x.0, split_from fuel x.1, rw (e, split_from) refl)
]

join-cons :
    (part : Text) (parts : List Text) (a : Text) (l : List Text)
    → parts ≡ a ∷ l
    → join (part ∷ parts) ≡ part ++ (b',' ∷ join parts)
join-cons part parts a l e = rw e refl

-- A text that is no longer than the fuel is split into parts that have no comma and that make the
-- text again with commas between them.
pub split_from_lem :
    (fuel : ℕ) (value : Text)
    → length value ≤ fuel
    → (join (split_from fuel value) ≡ value)
      × All (λ part. cut b',' part ≡ none) (split_from fuel value)
unfolding split_from
split_from_lem zero [] h = (refl, (unfold cut in refl, tt))
split_from_lem zero (c ∷ value) h = absurd (omega arith)
split_from_lem (suc fuel) value h = elim (Option-cases (cut b',' value)) [
  | inl e ↦ rw (e, split_from) (refl, (e, tt))
  | inr (x, e) ↦
      let k = cut-IsCut value x.0 x.1 e in
      let (a, l, n) = split_from-nonempty fuel x.1 in
      let r = split_from_lem fuel x.1 (omega (arith, k.shorter)) in
      rw (e, split_from)
        (
          join-cons x.0 (split_from fuel x.1) a l n ∙ ap (λ s. x.0 ++ (b',' ∷ s)) r.0 ∙ sym k.whole,
          (k.first, r.1),
        )
]

cut-append :
    (part rest : Text) → cut b',' part ≡ none → cut b',' (part ++ (b',' ∷ rest)) ≡ some (part, rest)
unfolding cut
cut-append [] rest h = refl
cut-append (c ∷ part) rest h = elim (Bool-cases (nat_eq c b',')) [
  | inl e ↦ cc (rw e at h)
  | inr e ↦ elim (Option-cases (cut b',' part)) [
    | inl n ↦ rw (e, cut-append part rest n) refl
    | inr (x, n) ↦ cc (rw (e, n) at h)
  ]
]

split_from-some :
    (fuel : ℕ) (value part rest : Text)
    → cut b',' value ≡ some (part, rest)
    → split_from (suc fuel) value ≡ part ∷ split_from fuel rest
unfolding split_from
split_from-some fuel value part rest h = rw (h, split_from) refl

-- With enough fuel, parts without commas are what the text with commas between them splits into.
pub split_from-join :
    (fuel : ℕ) (part : Text) (parts : List Text)
    → length (join (part ∷ parts)) ≤ fuel
    → All (λ p. cut b',' p ≡ none) (part ∷ parts)
    → split_from fuel (join (part ∷ parts)) ≡ part ∷ parts
unfolding split_from
split_from-join zero part [] h k = refl
split_from-join (suc fuel) part [] h k = rw (k.0, split_from) refl
split_from-join zero part (next ∷ parts) h k =
    absurd (omega (arith, length-comma part (join (next ∷ parts))))
split_from-join (suc fuel) part (next ∷ parts) h k =
    split_from-some fuel (join (part ∷ next ∷ parts)) part (join (next ∷ parts))
      (cut-append part (join (next ∷ parts)) k.0)
    ∙ ap (λ l. part ∷ l)
        (split_from-join fuel next parts (omega (arith, length-comma part (join (next ∷ parts))))
          k.1)
