-- ===== src/Command/Csv.antt =====
-- parseCSV of cmd/quanttick/main.go.
use go_quant_tick.Common.{◌≡◌, ◌≢◌, false, none, List, [], ◌∷◌, Text, text_eq, cut, trim_space}

-- The second list has the parts of the first one that are not blank, trimmed and in their order.
pub data Kept : List Text → List Text → Type 0 where
  end : Kept [] []
  blank :
      {part : Text} {parts kept : List Text}
      → trim_space part ≡ []
      → Kept parts kept
      → Kept (part ∷ parts) kept
  named :
      {part : Text} {parts kept : List Text}
      → trim_space part ≢ []
      → Kept parts kept
      → Kept (part ∷ parts) (trim_space part ∷ kept)

-- A text between commas.
abbrev pub IsPart : Text → Type 0
IsPart part = cut b',' part ≡ none

-- A part that parseCSV leaves as it is.
record IsName (part : Text) : Type 0 where
  no_comma : IsPart part
  trimmed : trim_space part ≡ part
  not_blank : text_eq part [] ≡ false
