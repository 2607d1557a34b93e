-- ===== src/Constraints/Defs.antt =====
-- The constraint object of a token in decoded form, one field for each kind that raucle/registry.py
-- lists and one for the members under other keys, and the reasons for which a call is refused or a `ValueError` is raised.
use raucle.Prelude.{Bool, true, false, not, ◌||◌, Option, none, List, [], ◌∷◌, is_some}
use raucle.Prelude.Int.{ℤ}
use raucle.Text.{Text}
use raucle.Json.{Scalar, Value}
use raucle.Dict.{Dict}

-- A kind that the object lacks is `none`; an empty object under a key is `some []`.
pub record Constraints : Type 0 where
  pub forbidden_values : Option (Dict (List Scalar))
  pub allowed_values : Option (Dict (List Scalar))
  pub starts_with : Option (Dict Text)
  pub max_value : Option (Dict ℤ)
  pub min_value : Option (Dict ℤ)
  pub required_present : Option (List Text)
  pub forbidden_field_combinations : Option (List (List Text))
  pub other_kinds : Dict Value

-- `{}`
abbrev pub no_constraints : Constraints
no_constraints = record {
  forbidden_values = none;
  allowed_values = none;
  starts_with = none;
  max_value = none;
  min_value = none;
  required_present = none;
  forbidden_field_combinations = none;
  other_kinds = [];
}

abbrev pub is_registered : Dict Value → Bool
is_registered [] = true
is_registered (e ∷ d) = false

-- The object without the members that are no constraint kinds.
abbrev pub registered_part : Constraints → Constraints
registered_part c = record c { other_kinds = [] }

-- `not c`
abbrev pub is_empty_constraints : Constraints → Bool
is_empty_constraints c = not (
    is_some c.forbidden_values
    || is_some c.allowed_values
    || is_some c.starts_with
    || is_some c.max_value
    || is_some c.min_value
    || is_some c.required_present
    || is_some c.forbidden_field_combinations
    || not (is_registered c.other_kinds))

-- The reasons that the checkers of a call return.
pub data Violation : Type 0 where
  forbidden not_allowed not_a_number exceeds_max below_min : Text → Scalar → Violation
  absent no_value bad_prefix missing : Text → Violation
  combination : List Text → Violation
  unmodelled_kind : Text → Violation
