-- ===== src/Constraints/Decode.antt =====
-- The parts of `_normalise_constraints` and `_merge_narrowing` that look at shapes: from the JSON object
-- of constraints to the record. What it finds wrong is a `ValueError` in the program too, or, where a kind that is an
-- object holds something else, the `AttributeError` of the first method call on it.
use raucle.Prelude.{Option, none, some, List, [], ◌∷◌, all, if◌then◌else◌}
use raucle.Prelude.Int.{ℤ}
use raucle.Text.{Text, text, mem_text}
use raucle.Json.{
  Scalar, int, str, Value, scalar, arr, obj, Items, nil, cons, Fields, end, field, get_field,
}
use raucle.Dict.{Dict}
use raucle.Result.{
  Result, ok, err, unknown_kind, bad_shape, bad_member, bad_bound, bad_prefix_value, ◌>>=◌, ◌>>◌,
  require,
}
use raucle.Constraints.Defs.{Constraints}

-- `CONSTRAINT_REGISTRY`'s keys.
abbrev pub known_kinds : List Text
known_kinds =
    text "forbidden_values"
    ∷ text "allowed_values"
    ∷ text "starts_with"
    ∷ text "max_value"
    ∷ text "min_value"
    ∷ text "required_present"
    ∷ text "forbidden_field_combinations"
    ∷ []

field_names : Fields → List Text
field_names end = []
field_names (field k v fs) = k ∷ field_names fs

-- `for fld, v in mapping.items()`
unfoldable pub decode_fields {ℓ} : {V : Type ℓ} → (Value → Result V) → Fields → Result (Dict V)
decode_fields f end = ok []
decode_fields f (field k v fs) = do x ← f v; rest ← decode_fields f fs; ok ((k, x) ∷ rest)

unfoldable pub decode_items {ℓ} : {V : Type ℓ} → (Value → Result V) → Items → Result (List V)
decode_items f nil = ok []
decode_items f (cons v xs) = do x ← f v; rest ← decode_items f xs; ok (x ∷ rest)

unfoldable pub decode_object {ℓ} : {V : Type ℓ} → (Value → Result V) → Value → Result (Dict V)
unfolding decode_fields
decode_object f (obj fs) = decode_fields f fs
decode_object f _ = err bad_shape

-- `isinstance(v, list)`
abbrev pub list_items : Value → Result Items
list_items (arr xs) = ok xs
list_items _ = err bad_shape

-- `list(v)`: the members of a list, the characters of a string, the keys of an object.
characters : Text → Items
characters [] = nil
characters (c ∷ s) = cons (scalar (str (c ∷ []))) (characters s)

key_items : Fields → Items
key_items end = nil
key_items (field k v fs) = cons (scalar (str k)) (key_items fs)

unfoldable pub iterated_items : Value → Result Items
unfolding characters key_items
iterated_items (arr xs) = ok xs
iterated_items (scalar (str s)) = ok (characters s)
iterated_items (obj fs) = ok (key_items fs)
iterated_items _ = err bad_shape

unfoldable pub decode_list {ℓ} :
    {V : Type ℓ} → (Value → Result Items) → (Value → Result V) → Value → Result (List V)
unfolding decode_items
decode_list each f v = do xs ← each v; decode_items f xs

-- A member that is a container is no JSON scalar.
abbrev pub decode_scalar : Value → Result Scalar
decode_scalar (scalar s) = ok s
decode_scalar _ = err bad_member

-- `_require_int_bound`: an integer, and no bool.
abbrev pub decode_bound : Value → Result ℤ
decode_bound (scalar (int n)) = ok n
decode_bound _ = err bad_bound

abbrev pub decode_text : Value → Result Text
decode_text (scalar (str s)) = ok s
decode_text _ = err bad_prefix_value

-- `if key not in c: return`
abbrev pub decode_kind {ℓ} : {V : Type ℓ} → (Value → Result V) → Option Value → Result (Option V)
decode_kind f none = ok none
decode_kind f (some v) = do x ← f v; ok (some x)

-- The members under keys that are no kinds.
unfoldable pub unknown_members : Fields → Dict Value
unknown_members end = []
unknown_members (field k v fs) =
    let rest = unknown_members fs in if mem_text k known_kinds then rest else (k, v) ∷ rest

-- The object with its kinds read one by one, where `each` gives the members of what is to be a list.
unfoldable pub read_kinds : (Value → Result Items) → Fields → Result Constraints
unfolding decode_object decode_list unknown_members
read_kinds each c = do
  forbidden ←
      decode_kind (decode_object (decode_list each decode_scalar))
        (get_field (text "forbidden_values") c)
  allowed ←
      decode_kind (decode_object (decode_list each decode_scalar))
        (get_field (text "allowed_values") c)
  prefixes ← decode_kind (decode_object decode_text) (get_field (text "starts_with") c)
  above ← decode_kind (decode_object decode_bound) (get_field (text "max_value") c)
  below ← decode_kind (decode_object decode_bound) (get_field (text "min_value") c)
  present ← decode_kind (decode_list each decode_text) (get_field (text "required_present") c)
  combos ←
      decode_kind (decode_list each (decode_list each decode_text))
        (get_field (text "forbidden_field_combinations") c)
  ok (record {
    forbidden_values = forbidden;
    allowed_values = allowed;
    starts_with = prefixes;
    max_value = above;
    min_value = below;
    required_present = present;
    forbidden_field_combinations = combos;
    other_kinds = unknown_members c;
  })

-- What `_normalise_constraints` reads.
unfoldable pub decode_constraints : Fields → Result Constraints
unfolding field_names read_kinds
decode_constraints c = do
  require (all (λ k. mem_text k known_kinds) (field_names c)) unknown_kind
  read_kinds list_items c

-- The constraints of a token that is parsed, which no one has normalised: other kinds stay.
unfoldable pub read_constraints : Fields → Result Constraints
unfolding read_kinds
read_constraints c = read_kinds list_items c

-- The object of extra constraints as the loops of `_merge_narrowing` go through it: what stands for a
-- list is iterated, and a member under another key stays unread. (A member of the wrong type is an error
-- here at once; in the program it is one when the merge is normalised, unless the parent's tighter
-- bound or list makes it disappear.)
unfoldable pub read_extra : Fields → Result Constraints
unfolding read_kinds
read_extra c = read_kinds iterated_items c
