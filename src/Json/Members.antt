-- ===== src/Json/Members.antt =====
-- The members of an object after another one is removed, and in the order of canonical JSON.
use mathlib.Core.Path.{subst}
use raucle.Prelude.{
  ◌≡◌, refl, sym, ap, ◌∙◌, Bool, true, false, Option, none, some, [], ◌∷◌, arith, Bool-cases, inl,
  inr, ==_refl, if◌then◌else◌,
}
use raucle.Text.{Text, text_eq, text_eq_sound, utf16_key, lex_le, utf16_le}
use raucle.Json.Defs.{Value, scalar, arr, obj, Fields, end, field, get_field}
use raucle.Json.Canon.{insert_field, reorder_keys, reorder_fields}
use raucle.Json.Objects.{remove_field, text_of}

pub get-remove_other :
    (i k : Text) (fs : Fields)
    → text_eq k i ≡ false
    → get_field i (remove_field k fs) ≡ get_field i fs
unfolding get_field remove_field
get-remove_other i k end h = refl
get-remove_other i k (field j v fs) h = elim (Bool-cases (text_eq j k)) [
  | inl same ↦
      (let off : text_eq j i ≡ false =
          subst (λ x. text_eq x i ≡ false) (sym (text_eq_sound j k same)) h in
        rw (same, off) (get-remove_other i k fs h))
  | inr other ↦ rw other (ground (arith, get-remove_other i k fs h))
]

lex_le_refl : (s : Text) → lex_le s s ≡ true
lex_le_refl [] = refl
lex_le_refl (c ∷ s) = rw (lex_le, ==_refl c) (lex_le_refl s)

utf16_le_refl : (s : Text) → utf16_le s s ≡ true
unfolding utf16_le
utf16_le_refl s = lex_le_refl (utf16_key s)

get-insert :
    (i k : Text) (v : Value) (fs : Fields)
    → get_field i (insert_field k v fs) ≡ (if text_eq k i then some v else get_field i fs)
unfolding get_field insert_field
get-insert i k v end = refl
get-insert i k v (field j w fs) = elim (Bool-cases (utf16_le k j)) [
  | inl before ↦ rw before refl
  | inr after ↦ elim (Bool-cases (text_eq j i)) [
    | inl here ↦ elim (Bool-cases (text_eq k i)) [
      | inl both ↦
          (let e : j ≡ k = text_eq_sound j i here ∙ sym (text_eq_sound k i both) in
            let no_le : utf16_le k k ≡ false = subst (λ x. utf16_le k x ≡ false) e after in
            let a_le = utf16_le_refl k in cc)
      | inr only ↦ rw (after, here, only) refl
    ]
    | inr elsewhere ↦ rw (after, elsewhere) (get-insert i k v fs)
  ]
]

map_value : Option Value → Option Value
map_value none = none
map_value (some v) = some (reorder_keys v)

get-reorder :
    (i : Text) (fs : Fields) → get_field i (reorder_fields fs) ≡ map_value (get_field i fs)
unfolding get_field reorder_keys reorder_fields map_value
get-reorder i end = refl
get-reorder i (field k v fs) =
    get-insert i k (reorder_keys v) (reorder_fields fs) ∙ by_key (text_eq k i) (get-reorder i fs)
  where
    by_key :
        (b : Bool)
        → get_field i (reorder_fields fs) ≡ map_value (get_field i fs)
        → (if b then some (reorder_keys v) else get_field i (reorder_fields fs))
          ≡ map_value (if b then some v else get_field i fs)
    by_key true h = refl
    by_key false h = h

-- A text member of an object stays where it is in the canonical form.
pub text_of-reorder :
    (i : Text) (fs : Fields) → text_of (get_field i (reorder_fields fs)) ≡ text_of (get_field i fs)
unfolding map_value reorder_keys
text_of-reorder i fs = ap text_of (get-reorder i fs) ∙ by_value (get_field i fs)
  where
    by_value : (o : Option Value) → text_of (map_value o) ≡ text_of o
    by_value none = refl
    by_value (some (scalar s)) = refl
    by_value (some (arr xs)) = refl
    by_value (some (obj gs)) = refl
