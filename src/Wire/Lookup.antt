-- ===== src/Wire/Lookup.antt =====
-- Reading a member of an object that was written with some members left out.
use raucle.Prelude.{
  ◌≡◌, refl, Option, none, some, List, [], ◌∷◌, ◌<|>◌, if◌then◌else◌, Bool-cases, inl, inr, ◌∙◌,
}
use raucle.Text.{Text, text_eq}
use raucle.Json.{Value, Fields, end, field, get_field}
use raucle.Json.Objects.{members, append_fields}

-- The first member under the key that is there.
abbrev pub lookup : Text → List (Text × Option Value) → Option Value
lookup k [] = none
lookup k ((j, o) ∷ es) = let rest = lookup k es in if text_eq j k then o <|> rest else rest

pub get_field-append :
    (k : Text) (fs gs : Fields)
    → get_field k (append_fields fs gs) ≡ (get_field k fs <|> get_field k gs)
unfolding get_field
get_field-append k end gs = refl
get_field-append k (field j v fs) gs = elim (Bool-cases (text_eq j k)) [
  | inl same ↦ rw same refl
  | inr other ↦ rw other (get_field-append k fs gs)
]

pub get_field-members :
    (k : Text) (es : List (Text × Option Value)) → get_field k (members es) ≡ lookup k es
unfolding get_field
get_field-members k [] = refl
get_field-members k ((j, none) ∷ es) = elim (Bool-cases (text_eq j k)) [
  | inl same ↦ rw same (get_field-members k es)
  | inr other ↦ rw other (get_field-members k es)
]
get_field-members k ((j, some v) ∷ es) = elim (Bool-cases (text_eq j k)) [
  | inl same ↦ rw same refl
  | inr other ↦ rw other (get_field-members k es)
]

-- A member of two objects in a row.
pub lookup-both :
    (k : Text) (es fs : List (Text × Option Value))
    → get_field k (append_fields (members es) (members fs)) ≡ (lookup k es <|> lookup k fs)
lookup-both k es fs =
    get_field-append k (members es) (members fs)
    ∙ (λ i. get_field-members k es i <|> get_field-members k fs i)
