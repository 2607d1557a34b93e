-- ===== src/Constraints/Normalise.antt =====
-- `_normalise_constraints` on a decoded object: the rules for field names and members, and the
-- canonical order of every list.
use raucle.Prelude.{
  ℕ, Bool, true, false, not, Option, none, some, List, [], ◌∷◌, map, all, leb, if◌then◌else◌,
}
use raucle.Prelude.Int.{leb_ℤ}
use raucle.Prelude.Sort.{sort}
use raucle.Text.{Text, text_eq, is_empty, utf16_le, no_surrogates}
use raucle.Json.{Scalar, null, bool, int, float, str}
use raucle.Platform.{Platform}
use raucle.Dict.{Dict, get, put}
use raucle.Result.{
  Error, Result, ok, err, bad_member, empty_field, field_collision, lone_surrogate, unknown_kind,
  ◌>>=◌, ◌>>◌, require,
}
use raucle.Constraints.Defs.{Constraints, is_registered}

-- `_require_json_scalar`
abbrev pub is_json_scalar : Scalar → Bool
is_json_scalar (str s) = true
is_json_scalar (int n) = true
is_json_scalar (bool b) = true
is_json_scalar _ = false

-- The check of one field name against the names seen, by their normal forms.
field_name_error : Platform → Dict Text → Text → Option Error
field_name_error p seen k = if is_empty k then some empty_field else elim (get (p.nfc k) seen) [
  | none ↦ none
  | some j ↦ if text_eq j k then none else some field_collision
]

-- `_validate_field_keys`, and the loop of `_require_field_name_list`.
unfoldable pub distinct_fields : Platform → Dict Text → List Text → Result (Unit {0})
unfolding field_name_error
distinct_fields p seen [] = ok tt
distinct_fields p seen (k ∷ ks) = elim (field_name_error p seen k) [
  | some e ↦ err e
  | none ↦ distinct_fields p (put (p.nfc k) k seen) ks
]

abbrev keys {ℓ} : {V : Type ℓ} → Dict V → List Text
keys d = map (λ e. e.0) d

-- `value_sort_key`, as the test `key(a) <= key(b)`: strings first, by UTF-16; then by type name, then
-- by value. (Members of other types are refused before the list is sorted.)
abbrev pub value_rank : Scalar → ℕ
value_rank (str s) = 0
value_rank null = 1
value_rank (bool b) = 2
value_rank (float x) = 3
value_rank (int n) = 4

unfoldable pub value_le : Scalar → Scalar → Bool
value_le (str s) (str t) = utf16_le s t
value_le (bool a) (bool b) = if a then b else true
value_le (int m) (int n) = leb_ℤ m n
value_le a b = leb (value_rank a) (value_rank b)

abbrev sortable : Scalar → Bool
sortable (str s) = no_surrogates s
sortable _ = true

-- `_as_value_list` and the sort, for each field.
unfoldable pub sort_values : Dict (List Scalar) → Result (Dict (List Scalar))
unfolding value_le
sort_values [] = ok []
sort_values ((k, vs) ∷ d) = do
  require (all is_json_scalar vs) bad_member
  require (all sortable vs) lone_surrogate
  rest ← sort_values d
  ok ((k, sort value_le vs) ∷ rest)

-- `if key not in c: return`
abbrev pub on_kind {ℓ} : {V : Type ℓ} → (V → Result V) → Option V → Result (Option V)
on_kind f none = ok none
on_kind f (some v) = do w ← f v; ok (some w)

-- `_normalise_value_list_constraint`
unfoldable pub normalise_values : Platform → Dict (List Scalar) → Result (Dict (List Scalar))
unfolding distinct_fields sort_values
normalise_values p d = do distinct_fields p [] (keys d); sort_values d

-- `_normalise_starts_with` and `_normalise_int_bound`, for values that have the right type.
unfoldable pub normalise_fields {ℓ} : {V : Type ℓ} → Platform → Dict V → Result (Dict V)
unfolding distinct_fields
normalise_fields p d = do distinct_fields p [] (keys d); ok d

-- `sorted(names, key=_utf16_key)`, which raises on a lone surrogate.
unfoldable pub sort_names : List Text → Result (List Text)
sort_names ks = do require (all no_surrogates ks) lone_surrogate; ok (sort utf16_le ks)

-- `_normalise_required_present`
unfoldable pub normalise_required : Platform → List Text → Result (List Text)
unfolding distinct_fields sort_names
normalise_required p ks = do distinct_fields p [] ks; sort_names ks

-- Lexicographic `<=` on lists of names.
abbrev pub names_le : (Text → Text → Bool) → List Text → List Text → Bool
names_le le [] ts = true
names_le le (s ∷ ss) [] = false
names_le le (s ∷ ss) (t ∷ ts) = elim (text_eq s t) [ true ↦ names_le le ss ts | false ↦ le s t ]

unfoldable pub sort_combos : List (List Text) → Result (List (List Text))
unfolding sort_names
sort_combos [] = ok []
sort_combos (combo ∷ combos) = do
  require (all (λ k. not (is_empty k)) combo) empty_field
  c ← sort_names combo
  rest ← sort_combos combos
  ok (c ∷ rest)

-- `_normalise_forbidden_field_combinations`
unfoldable pub normalise_combos : List (List Text) → Result (List (List Text))
unfolding sort_combos
normalise_combos combos = do cs ← sort_combos combos; ok (sort (names_le utf16_le) cs)

unfoldable pub normalise_constraints : Platform → Constraints → Result Constraints
unfolding normalise_values normalise_fields normalise_required normalise_combos
normalise_constraints p c = do
  require (is_registered c.other_kinds) unknown_kind
  forbidden ← on_kind (normalise_values p) c.forbidden_values
  allowed ← on_kind (normalise_values p) c.allowed_values
  prefixes ← on_kind (normalise_fields p) c.starts_with
  above ← on_kind (normalise_fields p) c.max_value
  below ← on_kind (normalise_fields p) c.min_value
  present ← on_kind (normalise_required p) c.required_present
  combos ← on_kind normalise_combos c.forbidden_field_combinations
  ok (record {
    forbidden_values = forbidden;
    allowed_values = allowed;
    starts_with = prefixes;
    max_value = above;
    min_value = below;
    required_present = present;
    forbidden_field_combinations = combos;
    other_kinds = c.other_kinds;
  })
