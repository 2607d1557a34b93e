-- ===== src/Constraints/Sorted.antt =====
-- What normalisation does to an object that it accepts: it sorts every list, and the arguments that
-- the object admits stay the same.
use raucle.Prelude.{◌≡◌, refl, sym, ap, ◌∙◌, true, Option, none, some, List, [], ◌∷◌, map, arith}
use raucle.Prelude.Sort.{sort}
use raucle.Text.{Text, utf16_le}
use raucle.Json.{Scalar, Value}
use raucle.Platform.{Platform}
use raucle.Dict.{Dict}
use raucle.Result.{
  Result, ok, unknown_kind, require-eq-ok, >>=-eq-ok, ok-injective, Outcome, Outcome-eq,
}
use raucle.Constraints.Defs.{Constraints, is_registered}
use raucle.Constraints.Normalise.{
  value_le, sort_values, sort_names, sort_combos, on_kind, normalise_values, normalise_fields,
  normalise_required, normalise_combos, normalise_constraints, names_le,
}

abbrev pub sort_entry : Text × List Scalar → Text × List Scalar
sort_entry (k, vs) = (k, sort value_le vs)

abbrev pub map_option {ℓ} : {V : Type ℓ} → (V → V) → Option V → Option V
map_option f none = none
map_option f (some v) = some (f v)

abbrev pub sort_combo_list : List (List Text) → List (List Text)
sort_combo_list cs = sort (names_le utf16_le) (map (sort utf16_le) cs)

-- The object with its lists sorted.
abbrev pub sorted_kinds : Constraints → Constraints
sorted_kinds c = record {
  forbidden_values = map_option (map sort_entry) c.forbidden_values;
  allowed_values = map_option (map sort_entry) c.allowed_values;
  starts_with = c.starts_with;
  max_value = c.max_value;
  min_value = c.min_value;
  required_present = map_option (sort utf16_le) c.required_present;
  forbidden_field_combinations = map_option sort_combo_list c.forbidden_field_combinations;
  other_kinds = c.other_kinds;
}

on_kind-Outcome {ℓ} :
    {V : Type ℓ} (f : V → Result V) (g : V → V) (o : Option V)
    → ((v : V) → Outcome (f v) (g v))
    → Outcome (on_kind f o) (map_option g o)
on_kind-Outcome f g none e = λ h. refl
on_kind-Outcome f g (some v) e = λ h. ground (arith, e v)

on_kind-eq {ℓ} :
    {V : Type ℓ} (f : V → Result V) (g : V → V) (o : Option V) {r : Option V}
    → ((v : V) → Outcome (f v) (g v))
    → on_kind f o ≡ ok r
    → r ≡ map_option g o
on_kind-eq f g o e h = Outcome-eq (on_kind f o) (on_kind-Outcome f g o e) h

on_kind-same {ℓ} :
    {V : Type ℓ} (f : V → Result V) (o : Option V) {r : Option V}
    → ((v : V) → Outcome (f v) v)
    → on_kind f o ≡ ok r
    → r ≡ o
on_kind-same f none e h = sym (ok-injective h)
on_kind-same f (some v) e h = on_kind-eq f (λ w. w) (some v) e h

sort_values-Outcome : (d : Dict (List Scalar)) → Outcome (sort_values d) (map sort_entry d)
unfolding sort_values
sort_values-Outcome [] = λ h. refl
sort_values-Outcome ((k, vs) ∷ d) = λ h. ground (arith, sort_values-Outcome d)

sort_names-Outcome : (ks : List Text) → Outcome (sort_names ks) (sort utf16_le ks)
unfolding sort_names
sort_names-Outcome ks = λ h. ground arith

sort_combos-Outcome : (cs : List (List Text)) → Outcome (sort_combos cs) (map (sort utf16_le) cs)
unfolding sort_combos
sort_combos-Outcome [] = λ h. refl
sort_combos-Outcome (combo ∷ cs) =
    λ h. ground (arith, sort_combos-Outcome cs, sort_names-Outcome combo)

normalise_values-Outcome :
    (p : Platform) (d : Dict (List Scalar)) → Outcome (normalise_values p d) (map sort_entry d)
unfolding normalise_values
normalise_values-Outcome p d = λ h. ground (arith, sort_values-Outcome d)

normalise_fields-Outcome {ℓ} :
    {V : Type ℓ} (p : Platform) (d : Dict V) → Outcome (normalise_fields p d) d
unfolding normalise_fields
normalise_fields-Outcome p d = λ h. ground arith

normalise_required-Outcome :
    (p : Platform) (ks : List Text) → Outcome (normalise_required p ks) (sort utf16_le ks)
unfolding normalise_required
normalise_required-Outcome p ks = λ h. ground (arith, sort_names-Outcome ks)

normalise_combos-Outcome :
    (cs : List (List Text)) → Outcome (normalise_combos cs) (sort_combo_list cs)
unfolding normalise_combos
normalise_combos-Outcome cs = λ h. ground (arith, sort_combos-Outcome cs)

-- An accepted object comes back with its lists sorted, and otherwise unchanged.
pub normalise-eq-sorted :
    (p : Platform) (c : Constraints) {d : Constraints}
    → normalise_constraints p c ≡ ok d
    → d ≡ sorted_kinds c
unfolding normalise_constraints
normalise-eq-sorted p c h =
    let (_, k) = require-eq-ok (is_registered c.other_kinds) unknown_kind _ h in
    let (a₀, e₀, h₀) = >>=-eq-ok (on_kind (normalise_values p) c.forbidden_values) _ k in
    let (a₁, e₁, h₁) = >>=-eq-ok (on_kind (normalise_values p) c.allowed_values) _ h₀ in
    let (a₂, e₂, h₂) = >>=-eq-ok (on_kind (normalise_fields p) c.starts_with) _ h₁ in
    let (a₃, e₃, h₃) = >>=-eq-ok (on_kind (normalise_fields p) c.max_value) _ h₂ in
    let (a₄, e₄, h₄) = >>=-eq-ok (on_kind (normalise_fields p) c.min_value) _ h₃ in
    let (a₅, e₅, h₅) = >>=-eq-ok (on_kind (normalise_required p) c.required_present) _ h₄ in
    let (a₆, e₆, h₆) = >>=-eq-ok (on_kind normalise_combos c.forbidden_field_combinations) _ h₅ in
    let q₀ =
      on_kind-eq (normalise_values p) (map sort_entry) c.forbidden_values
        (normalise_values-Outcome p) e₀ in
    let q₁ =
      on_kind-eq (normalise_values p) (map sort_entry) c.allowed_values (normalise_values-Outcome p)
        e₁ in
    let q₂ = on_kind-same (normalise_fields p) c.starts_with (normalise_fields-Outcome p) e₂ in
    let q₃ = on_kind-same (normalise_fields p) c.max_value (normalise_fields-Outcome p) e₃ in
    let q₄ = on_kind-same (normalise_fields p) c.min_value (normalise_fields-Outcome p) e₄ in
    let q₅ =
      on_kind-eq (normalise_required p) (sort utf16_le) c.required_present
        (normalise_required-Outcome p) e₅ in
    let q₆ =
      on_kind-eq normalise_combos sort_combo_list c.forbidden_field_combinations
        normalise_combos-Outcome e₆ in
    sym (ok-injective h₆) ∙ λ i. record {
      forbidden_values = q₀ i;
      allowed_values = q₁ i;
      starts_with = q₂ i;
      max_value = q₃ i;
      min_value = q₄ i;
      required_present = q₅ i;
      forbidden_field_combinations = q₆ i;
      other_kinds = c.other_kinds;
    }

registered_sound : (d : Dict Value) → is_registered d ≡ true → d ≡ []
registered_sound [] h = refl
registered_sound (e ∷ d) h = cc

-- An object that was accepted has no other kinds.
pub normalise-registered :
    (p : Platform) (c d : Constraints) → normalise_constraints p c ≡ ok d → d.other_kinds ≡ []
unfolding normalise_constraints
normalise-registered p c d h =
    let (known, _) = require-eq-ok (is_registered c.other_kinds) unknown_kind _ h in
    ap (λ x. x.other_kinds) (normalise-eq-sorted p c h) ∙ registered_sound c.other_kinds known
