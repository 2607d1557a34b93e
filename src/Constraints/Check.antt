-- ===== src/Constraints/Check.antt =====
-- `_check_constraints`: the guard for kinds that are not in the registry, and the seven checkers that it runs on the arguments of a call.
use raucle.Prelude.{
  Bool, not, Option, none, some, List, [], ◌∷◌, all, first_some, or_default, ◌<|>◌, if◌then◌else◌,
}
use raucle.Prelude.Int.{ℤ}
use raucle.Text.{Text}
use raucle.Text
use raucle.Json.{
  Scalar, str, Value, scalar, Fields, contains, flatten_scalars, get_field, has_field, is_number,
  above, below,
}
use raucle.Platform.{Platform}
use raucle.Dict.{Dict}
use raucle.Constraints.Defs.{
  Constraints, Violation, forbidden, not_allowed, not_a_number, exceeds_max, below_min, absent,
  no_value, bad_prefix, missing, combination, unmodelled_kind,
}
use raucle.Constraints.FileUri.{canonical_file_uri}

-- EXISTS_DENY: a forbidden scalar anywhere in the argument.
abbrev pub each_if_present : (Scalar → Option Violation) → Option Value → Option Violation
each_if_present test none = none
each_if_present test (some v) = first_some test (flatten_scalars v)

unfoldable pub forbidden_entry : Fields → Text × List Scalar → Option Violation
forbidden_entry args (fld, bads) =
    each_if_present (λ s. if contains bads s then some (forbidden fld s) else none)
      (get_field fld args)

unfoldable pub check_forbidden_values : Constraints → Fields → Option Violation
check_forbidden_values c args = first_some (forbidden_entry args) (or_default c.forbidden_values [])

-- `if not scalars: …`, and then the loop over the scalars.
abbrev pub each_scalar : Text → (Scalar → Option Violation) → List Scalar → Option Violation
each_scalar fld test [] = some (no_value fld)
each_scalar fld test (s ∷ ss) = first_some test (s ∷ ss)

-- The field has to be there, and every scalar in it has to pass.
abbrev pub each_present : Text → (Scalar → Option Violation) → Option Value → Option Violation
each_present fld test none = some (absent fld)
each_present fld test (some v) = each_scalar fld test (flatten_scalars v)

-- FORALL_ALLOW
unfoldable pub allowed_entry : Fields → Text × List Scalar → Option Violation
allowed_entry args (fld, oks) =
    each_present fld (λ s. if not (contains oks s) then some (not_allowed fld s) else none)
      (get_field fld args)

unfoldable pub check_allowed_values : Constraints → Fields → Option Violation
check_allowed_values c args = first_some (allowed_entry args) (or_default c.allowed_values [])

-- The test of one string value against one prefix.
unfoldable pub prefix_matches : Platform → Text → Text → Bool
prefix_matches p prefix value = elim (canonical_file_uri p prefix) [
  | none ↦ Text.starts_with prefix value
  | some canon_prefix ↦ elim (canonical_file_uri p value) [
    | none ↦ Text.starts_with prefix value
    | some canon_value ↦ Text.starts_with canon_prefix canon_value
  ]
]

-- STRING_ONLY
abbrev pub string_matches : Platform → Text → Text → Option Value → Option Violation
string_matches p fld prefix none = some (absent fld)
string_matches p fld prefix (some (scalar (str value))) =
    if prefix_matches p prefix value then none else some (bad_prefix fld)
string_matches p fld prefix (some _) = some (bad_prefix fld)

unfoldable pub starts_with_entry : Platform → Fields → Text × Text → Option Violation
starts_with_entry p args (fld, prefix) = string_matches p fld prefix (get_field fld args)

unfoldable pub check_starts_with : Platform → Constraints → Fields → Option Violation
check_starts_with p c args = first_some (starts_with_entry p args) (or_default c.starts_with [])

-- FORALL_NUMERIC
unfoldable pub max_entry : Fields → Text × ℤ → Option Violation
max_entry args (fld, bound) =
    each_present fld
      (λ s.
        if not (is_number s)
        then some (not_a_number fld s)
        else if above s bound
        then some (exceeds_max fld s)
        else none)
      (get_field fld args)

unfoldable pub check_max_value : Constraints → Fields → Option Violation
check_max_value c args = first_some (max_entry args) (or_default c.max_value [])

unfoldable pub min_entry : Fields → Text × ℤ → Option Violation
min_entry args (fld, bound) =
    each_present fld
      (λ s.
        if not (is_number s)
        then some (not_a_number fld s)
        else if below s bound
        then some (below_min fld s)
        else none)
      (get_field fld args)

unfoldable pub check_min_value : Constraints → Fields → Option Violation
check_min_value c args = first_some (min_entry args) (or_default c.min_value [])

-- PRESENCE
unfoldable pub required_entry : Fields → Text → Option Violation
required_entry args fld = if has_field args fld then none else some (missing fld)

unfoldable pub check_required_present : Constraints → Fields → Option Violation
check_required_present c args = first_some (required_entry args) (or_default c.required_present [])

unfoldable pub combination_entry : Fields → List Text → Option Violation
combination_entry args combo = if all (has_field args) combo then some (combination combo) else none

unfoldable pub check_forbidden_combinations : Constraints → Fields → Option Violation
check_forbidden_combinations c args =
    first_some (combination_entry args) (or_default c.forbidden_field_combinations [])

-- `for kind in c: if kind not in CONSTRAINT_REGISTRY`
abbrev pub check_registry : Dict Value → Option Violation
check_registry [] = none
check_registry ((kind, v) ∷ d) = some (unmodelled_kind kind)

-- The guard and the checkers in their order; the first reason is returned.
unfoldable pub check_constraints : Platform → Constraints → Fields → Option Violation
check_constraints p c args =
    check_registry c.other_kinds
    <|> check_forbidden_values c args
    <|> check_allowed_values c args
    <|> check_starts_with p c args
    <|> check_max_value c args
    <|> check_min_value c args
    <|> check_required_present c args
    <|> check_forbidden_combinations c args
