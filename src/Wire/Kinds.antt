-- ===== src/Wire/Kinds.antt =====
-- The object of a token's constraints is read back, kind by kind.
use raucle.Prelude.{
  ◌≡◌, refl, sym, ap, ◌∙◌, true, Option, none, some, List, [], ◌∷◌, ◌<|>◌, map, all, &&_true,
}
use raucle.Text.{Text, text, text_eq, mem_text}
use raucle.Json.{Value, scalar, Fields, get_field}
use raucle.Json.Objects.{str_value, int_value, members, append_fields}
use raucle.Dict.{Dict}
use raucle.Result.{Result, ok}
use raucle.Constraints.{
  Constraints, registered_part, known_kinds, decode_scalar, decode_bound, decode_text, decode_kind,
  list_items, decode_fields, decode_items, decode_object, decode_list, unknown_members, read_kinds,
  read_constraints,
}
use raucle.Token.{
  to_items, to_fields, list_value, dict_value, given, kind_members, constraints_fields,
}
use raucle.Wire.Lookup.{lookup, get_field-append, get_field-members}

-- The reader `f` gives back what the writer `g` was given.
abbrev Reads {ℓ} : {A : Type ℓ} → (Value → Result A) → (A → Value) → Type ℓ
Reads f g = (a : _) → f (g a) ≡ ok a

items-Reads {ℓ} :
    {A : Type ℓ} (f : Value → Result A) (g : A → Value)
    → Reads f g
    → (xs : List A) → decode_items f (to_items (map g xs)) ≡ ok xs
unfolding decode_items
items-Reads f g back [] = refl
items-Reads f g back (x ∷ xs) = rw (back x, items-Reads f g back xs) refl

fields-Reads {ℓ} :
    {A : Type ℓ} (f : Value → Result A) (g : A → Value)
    → Reads f g
    → (d : Dict A) → decode_fields f (to_fields (map (λ e. (e.0, g e.1)) d)) ≡ ok d
unfolding decode_fields
fields-Reads f g back [] = refl
fields-Reads f g back ((k, x) ∷ d) = rw (back x, fields-Reads f g back d) refl

list-Reads {ℓ} :
    {A : Type ℓ} (f : Value → Result A) (g : A → Value)
    → Reads f g
    → Reads (decode_list list_items f) (list_value g)
unfolding decode_list
list-Reads f g back xs = items-Reads f g back xs

object-Reads {ℓ} :
    {A : Type ℓ} (f : Value → Result A) (g : A → Value)
    → Reads f g
    → Reads (decode_object f) (dict_value g)
unfolding decode_object
object-Reads f g back d = fields-Reads f g back d

-- A kind that is there is read, and one that is not is not.
kind-Reads {ℓ} :
    {A : Type ℓ} (f : Value → Result A) (g : A → Value)
    → Reads f g
    → (o : Option A) → decode_kind f (given g o <|> none) ≡ ok o
kind-Reads f g back none = refl
kind-Reads f g back (some a) = rw (back a) refl

unknown-members :
    (es : List (Text × Option Value))
    → all (λ e. mem_text e.0 known_kinds) es ≡ true
    → unknown_members (append_fields (members es) (to_fields [])) ≡ []
unfolding unknown_members
unknown-members [] h = refl
unknown-members ((k, none) ∷ es) h = unknown-members es (&&_true (mem_text k known_kinds) _ h).1
unknown-members ((k, some v) ∷ es) h =
    let (known, rest) = &&_true (mem_text k known_kinds) _ h in rw known (unknown-members es rest)

or_none {ℓ} : {A : Type ℓ} (o : Option A) → (o <|> none) ≡ o
or_none none = refl
or_none (some a) = refl

kind-read {ℓ} :
    {A : Type ℓ} (k : Text) (c : Constraints) (f : Value → Result A) (g : A → Value) (o : Option A)
    → Reads f g
    → lookup k (kind_members c) ≡ (given g o <|> none)
    → decode_kind f (get_field k (append_fields (members (kind_members c)) (to_fields []))) ≡ ok o
unfolding get_field
kind-read k c f g o back e =
    ap (decode_kind f) (
      get_field-append k (members (kind_members c)) (to_fields [])
      ∙ or_none (get_field k (members (kind_members c)))
      ∙ get_field-members k (kind_members c)
      ∙ e)
    ∙ kind-Reads f g back o

read_kinds-of :
    (fs : Fields) (c : Constraints)
    → decode_kind
        (decode_object (decode_list list_items decode_scalar))
        (get_field (text "forbidden_values") fs)
      ≡ ok c.forbidden_values
    → decode_kind
        (decode_object (decode_list list_items decode_scalar))
        (get_field (text "allowed_values") fs)
      ≡ ok c.allowed_values
    → decode_kind (decode_object decode_text) (get_field (text "starts_with") fs) ≡ ok c.starts_with
    → decode_kind (decode_object decode_bound) (get_field (text "max_value") fs) ≡ ok c.max_value
    → decode_kind (decode_object decode_bound) (get_field (text "min_value") fs) ≡ ok c.min_value
    → decode_kind (decode_list list_items decode_text) (get_field (text "required_present") fs)
      ≡ ok c.required_present
    → decode_kind
        (decode_list list_items (decode_list list_items decode_text))
        (get_field (text "forbidden_field_combinations") fs)
      ≡ ok c.forbidden_field_combinations
    → unknown_members fs ≡ []
    → read_kinds list_items fs ≡ ok (registered_part c)
unfolding read_kinds
read_kinds-of fs c e₀ e₁ e₂ e₃ e₄ e₅ e₆ e₇ = rw (e₀, e₁, e₂, e₃, e₄, e₅, e₆, e₇) refl

values-Reads :
    Reads (decode_object (decode_list list_items decode_scalar)) (dict_value (list_value scalar))
values-Reads = object-Reads _ _ (list-Reads decode_scalar scalar (λ s. refl))

names-Reads : Reads (decode_list list_items decode_text) (list_value str_value)
names-Reads = list-Reads decode_text str_value (λ s. refl)

registered-read :
    (c : Constraints)
    → read_constraints (append_fields (members (kind_members c)) (to_fields []))
      ≡ ok (registered_part c)
unfolding read_constraints text_eq
registered-read c =
    read_kinds-of (append_fields (members (kind_members c)) (to_fields [])) c
      (kind-read (text "forbidden_values") c _ _ c.forbidden_values values-Reads refl)
      (kind-read (text "allowed_values") c _ _ c.allowed_values values-Reads refl)
      (kind-read (text "starts_with") c _ _ c.starts_with
        (object-Reads decode_text str_value (λ s. refl)) refl)
      (kind-read (text "max_value") c _ _ c.max_value
        (object-Reads decode_bound int_value (λ n. refl)) refl)
      (kind-read (text "min_value") c _ _ c.min_value
        (object-Reads decode_bound int_value (λ n. refl)) refl)
      (kind-read (text "required_present") c _ _ c.required_present names-Reads refl)
      (kind-read (text "forbidden_field_combinations") c _ _ c.forbidden_field_combinations
        (list-Reads _ _ names-Reads) refl)
      (unknown-members (kind_members c) refl)

-- The object of constraints whose kinds are all in the registry is read as those constraints.
pub constraints-read :
    (c : Constraints) → c.other_kinds ≡ [] → read_constraints (constraints_fields c) ≡ ok c
constraints-read c e =
    ap (λ o. read_constraints (append_fields (members (kind_members c)) (to_fields o))) e
    ∙ registered-read c
    ∙ ap (λ o. ok (with_others o)) (sym e)
  where
    with_others : Dict Value → Constraints
    with_others o = record c { other_kinds = o }
