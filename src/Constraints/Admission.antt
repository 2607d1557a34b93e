-- ===== src/Constraints/Admission.antt =====
-- The arguments that a constraint object admits, kind by kind.
use raucle.Prelude.{
  ◌≡◌, refl, none, [], ◌∷◌, All, first_some-none, first_some-none_of, or_default, <|>-eq-none,
}
use raucle.Json.{Value, Fields}
use raucle.Dict.{Dict}
use raucle.Platform.{Platform}
use raucle.Constraints.Defs.{Constraints}
use raucle.Constraints.Check.{
  forbidden_entry, allowed_entry, starts_with_entry, max_entry, min_entry, required_entry,
  combination_entry, check_forbidden_values, check_allowed_values, check_starts_with,
  check_max_value, check_min_value, check_required_present, check_forbidden_combinations,
  check_registry, check_constraints,
}

-- Every kind is in the registry and every entry of every kind passes.
pub record Pass (p : Platform) (c : Constraints) (args : Fields) : Type 0 where
  pub forbidden : All (λ e. forbidden_entry args e ≡ none) (or_default c.forbidden_values [])
  pub allowed : All (λ e. allowed_entry args e ≡ none) (or_default c.allowed_values [])
  pub prefixes : All (λ e. starts_with_entry p args e ≡ none) (or_default c.starts_with [])
  pub ceilings : All (λ e. max_entry args e ≡ none) (or_default c.max_value [])
  pub floors : All (λ e. min_entry args e ≡ none) (or_default c.min_value [])
  pub present : All (λ e. required_entry args e ≡ none) (or_default c.required_present [])
  pub combos :
      All (λ e. combination_entry args e ≡ none) (or_default c.forbidden_field_combinations [])
  pub registered : c.other_kinds ≡ []

registry-none : (d : Dict Value) → check_registry d ≡ none → d ≡ []
registry-none [] h = refl
registry-none (e ∷ d) h = cc

-- The checkers find nothing exactly when every entry passes.
pub Pass-of_check :
    (p : Platform) (c : Constraints) (args : Fields)
    → check_constraints p c args ≡ none
    → Pass p c args
unfolding check_constraints check_forbidden_values check_allowed_values check_starts_with
    check_max_value check_min_value check_required_present check_forbidden_combinations
Pass-of_check p c args h =
    let (g, k) = <|>-eq-none _ _ h in
    let (h₀, k₀) = <|>-eq-none _ _ k in
    let (h₁, k₁) = <|>-eq-none _ _ k₀ in
    let (h₂, k₂) = <|>-eq-none _ _ k₁ in
    let (h₃, k₃) = <|>-eq-none _ _ k₂ in
    let (h₄, k₄) = <|>-eq-none _ _ k₃ in
    let (h₅, h₆) = <|>-eq-none _ _ k₄ in
    record {
      forbidden = first_some-none (forbidden_entry args) (or_default c.forbidden_values []) h₀;
      allowed = first_some-none (allowed_entry args) (or_default c.allowed_values []) h₁;
      prefixes = first_some-none (starts_with_entry p args) (or_default c.starts_with []) h₂;
      ceilings = first_some-none (max_entry args) (or_default c.max_value []) h₃;
      floors = first_some-none (min_entry args) (or_default c.min_value []) h₄;
      present = first_some-none (required_entry args) (or_default c.required_present []) h₅;
      combos =
          first_some-none (combination_entry args) (or_default c.forbidden_field_combinations [])
            h₆;
      registered = registry-none c.other_kinds g;
    }

pub check-of_Pass :
    (p : Platform) (c : Constraints) (args : Fields)
    → Pass p c args
    → check_constraints p c args ≡ none
unfolding check_constraints check_forbidden_values check_allowed_values check_starts_with
    check_max_value check_min_value check_required_present check_forbidden_combinations
check-of_Pass p c args h = rw (
  h.registered,
  first_some-none_of (forbidden_entry args) (or_default c.forbidden_values []) h.forbidden,
  first_some-none_of (allowed_entry args) (or_default c.allowed_values []) h.allowed,
  first_some-none_of (starts_with_entry p args) (or_default c.starts_with []) h.prefixes,
  first_some-none_of (max_entry args) (or_default c.max_value []) h.ceilings,
  first_some-none_of (min_entry args) (or_default c.min_value []) h.floors,
  first_some-none_of (required_entry args) (or_default c.required_present []) h.present,
  first_some-none_of (combination_entry args) (or_default c.forbidden_field_combinations [])
      h.combos,
)
