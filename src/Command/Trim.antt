-- ===== src/Command/Trim.antt =====
-- strings.TrimSpace on the texts of parseCSV of cmd/quanttick/main.go.
use mathlib.Core.List.{reverse_aux}
use go_quant_tick.Common.{
  ℕ, ◌≡◌, ◌≤◌, false, none, [], ◌∷◌, ◌++◌, Text, nat_eq, cut, is_space, trim_left, trim_space,
  reverse, arith, refl, sym, ap, ◌∙◌, Bool-cases, Option-cases, inl, inr, All, length, append-nil,
  subst,
}

reverse_aux-join : (xs r s : Text) → reverse_aux xs (r ++ s) ≡ reverse_aux xs r ++ s
reverse_aux-join [] r s = refl
reverse_aux-join (x ∷ xs) r s = reverse_aux-join xs (x ∷ r) s

reverse_aux-append : (xs ys r : Text) → reverse_aux (xs ++ ys) r ≡ reverse_aux ys (reverse_aux xs r)
reverse_aux-append [] ys r = refl
reverse_aux-append (x ∷ xs) ys r = reverse_aux-append xs ys (x ∷ r)

reverse_aux-reverse_aux :
    (xs r s : Text) → reverse_aux (reverse_aux xs r) s ≡ reverse_aux r (xs ++ s)
reverse_aux-reverse_aux [] r s = refl
reverse_aux-reverse_aux (x ∷ xs) r s = reverse_aux-reverse_aux xs (x ∷ r) s

reverse-reverse : (xs : Text) → reverse (reverse xs) ≡ xs
reverse-reverse xs = reverse_aux-reverse_aux xs [] [] ∙ append-nil xs

trim_left_idem : (s : Text) → trim_left (trim_left s) ≡ trim_left s
unfolding trim_left
trim_left_idem [] = refl
trim_left_idem (c ∷ s) = elim (Bool-cases (is_space c)) [
  | inl e ↦ rw e (trim_left_idem s)
  | inr e ↦ rw e (rw e refl)
]

trim_left_suffix : (s : Text) → (blank : Text) × (s ≡ blank ++ trim_left s)
unfolding trim_left
trim_left_suffix [] = ([], refl)
trim_left_suffix (c ∷ s) = elim (Bool-cases (is_space c)) [
  | inl e ↦ let (blank, h) = trim_left_suffix s in (c ∷ blank, rw e (ap (λ l. c ∷ l) h))
  | inr e ↦ ([], rw e refl)
]

length-trim_left : (s : Text) → length (trim_left s) ≤ length s
unfolding trim_left
length-trim_left [] = omega arith
length-trim_left (c ∷ s) = ground (arith, length-trim_left s)

-- What begins a text that is trimmed on the left is trimmed on the left.
trim_left_prefix : (w q : Text) → trim_left (w ++ q) ≡ w ++ q → trim_left w ≡ w
unfolding trim_left
trim_left_prefix [] q h = refl
trim_left_prefix (c ∷ w) q h = elim (Bool-cases (is_space c)) [
  | inl e ↦
      let shorter : trim_left (w ++ q) ≡ c ∷ (w ++ q) = rw e at h in
      absurd (omega (arith, ap length shorter, length-trim_left (w ++ q)))
  | inr e ↦ rw e refl
]

pub trim_space_idem : (s : Text) → trim_space (trim_space s) ≡ trim_space s
unfolding trim_space
trim_space_idem s =
    let u = trim_left s in
    let v = trim_left (reverse u) in
    let (blank, h) = trim_left_suffix (reverse u) in
    let whole : u ≡ reverse v ++ reverse blank =
      sym (reverse-reverse u)
      ∙ ap reverse h
      ∙ reverse_aux-append blank v []
      ∙ reverse_aux-join v [] (reverse blank) in
    let trimmed : trim_left (reverse v) ≡ reverse v =
      trim_left_prefix (reverse v) (reverse blank)
        (subst (λ t. trim_left t ≡ t) whole (trim_left_idem s)) in
    ap (λ t. reverse (trim_left (reverse t))) trimmed
    ∙ ap (λ t. reverse (trim_left t)) (reverse-reverse v)
    ∙ ap reverse (trim_left_idem (reverse u))

module _ {κ} (P : ℕ → Type κ) where
  All-reverse_aux : (xs r : Text) → All P xs → All P r → All P (reverse_aux xs r)
  All-reverse_aux [] r h k = k
  All-reverse_aux (x ∷ xs) r h k = All-reverse_aux xs (x ∷ r) h.1 (h.0, k)

  All-trim_left : (s : Text) → All P s → All P (trim_left s)
  unfolding trim_left
  All-trim_left [] h = tt
  All-trim_left (c ∷ s) h = elim (Bool-cases (is_space c)) [
    | inl e ↦ rw e (All-trim_left s h.1)
    | inr e ↦ rw e h
  ]

  All-trim_space : (s : Text) → All P s → All P (trim_space s)
  unfolding trim_space
  All-trim_space s h =
      All-reverse_aux (trim_left (reverse (trim_left s))) []
        (All-trim_left (reverse (trim_left s))
          (All-reverse_aux (trim_left s) [] (All-trim_left s h) tt))
        tt

no_comma : (s : Text) → cut b',' s ≡ none → All (λ c. nat_eq c b',' ≡ false) s
unfolding cut
no_comma [] h = tt
no_comma (c ∷ s) h = elim (Bool-cases (nat_eq c b',')) [
  | inl e ↦ cc (rw e at h)
  | inr e ↦ elim (Option-cases (cut b',' s)) [
    | inl n ↦ (e, no_comma s n)
    | inr (x, n) ↦ cc (rw (e, n) at h)
  ]
]

cut-none : (s : Text) → All (λ c. nat_eq c b',' ≡ false) s → cut b',' s ≡ none
unfolding cut
cut-none [] h = refl
cut-none (c ∷ s) h = rw (h.0, cut-none s h.1) refl

-- Trimming brings in no comma.
pub cut-trim_space : (s : Text) → cut b',' s ≡ none → cut b',' (trim_space s) ≡ none
cut-trim_space s h =
    cut-none (trim_space s) (All-trim_space (λ c. nat_eq c b',' ≡ false) s (no_comma s h))
