-- ===== src/Constraints/Meaning.antt =====
-- What a constraint object asks of the arguments of a call, kind by kind, without the code that tests it.
use raucle.Prelude.{
  ◌≡◌, refl, ◌↔◌, Bool, true, false, not, Option, none, some, List, [], ◌∷◌, All, All-map, all,
  arith, first_some, first_some-none, first_some-none_of, or_default, if◌then◌else◌,
}
use raucle.Prelude.Int.{ℤ}
use raucle.Text.{Text}
use raucle.Json.{
  Scalar, null, bool, int, float, str, Value, scalar, arr, obj, Fields, get_field, has_field,
  flatten_scalars, contains, is_number, above, below,
}
use raucle.Platform.{Platform}
use raucle.Constraints.Defs.{
  Constraints, Violation, forbidden, not_allowed, not_a_number, exceeds_max, below_min,
}
use raucle.Constraints.Check.{
  prefix_matches, each_if_present, each_scalar, each_present, string_matches, forbidden_entry,
  allowed_entry, starts_with_entry, max_entry, min_entry, required_entry, combination_entry,
  check_constraints,
}
use raucle.Constraints.Admission.{Pass-of_check, check-of_Pass}

-- If the argument is there, each scalar in it has the property.
abbrev pub WherePresent : (Scalar → Type 0) → Option Value → Type 0
WherePresent P none = Unit
WherePresent P (some v) = All P (flatten_scalars v)

abbrev pub SomeAndAll : (Scalar → Type 0) → List Scalar → Type 0
SomeAndAll P [] = ⊥
SomeAndAll P (s ∷ ss) = All P (s ∷ ss)

-- The argument is there and holds a scalar, and each scalar in it has the property.
abbrev pub Throughout : (Scalar → Type 0) → Option Value → Type 0
Throughout P none = ⊥
Throughout P (some v) = SomeAndAll P (flatten_scalars v)

-- The argument is there, and is a string with the property.
abbrev pub AsString : (Text → Type 0) → Option Value → Type 0
AsString P (some (scalar (str s))) = P s
AsString P _ = ⊥

abbrev pub AtMost : ℤ → Scalar → Type 0
AtMost b s = (is_number s ≡ true) × (above s b ≡ false)

abbrev pub AtLeast : ℤ → Scalar → Type 0
AtLeast b s = (is_number s ≡ true) × (below s b ≡ false)

pub record Meets (p : Platform) (c : Constraints) (args : Fields) : Type 0 where
  pub forbidden_values :
      All
        (λ e. WherePresent (λ s. contains e.1 s ≡ false) (get_field e.0 args))
        (or_default c.forbidden_values [])
  pub allowed_values :
      All
        (λ e. Throughout (λ s. contains e.1 s ≡ true) (get_field e.0 args))
        (or_default c.allowed_values [])
  pub starts_with :
      All
        (λ e. AsString (λ s. prefix_matches p e.1 s ≡ true) (get_field e.0 args))
        (or_default c.starts_with [])
  pub max_value :
      All (λ e. Throughout (AtMost e.1) (get_field e.0 args)) (or_default c.max_value [])
  pub min_value :
      All (λ e. Throughout (AtLeast e.1) (get_field e.0 args)) (or_default c.min_value [])
  pub required_present : All (λ k. has_field args k ≡ true) (or_default c.required_present [])
  pub forbidden_field_combinations :
      All (λ ks. all (has_field args) ks ≡ false) (or_default c.forbidden_field_combinations [])
  pub other_kinds : c.other_kinds ≡ []

module _ (test : Scalar → Option Violation) (P : Scalar → Type 0)
    (decides : (s : Scalar) → (test s ≡ none) ↔ P s) where
  loop_iff : (ss : List Scalar) → (first_some test ss ≡ none) ↔ All P ss
  loop_iff ss = (
    (λ h. All-map ss (λ s. (decides s).0) (first_some-none test ss h)),
    (λ h. first_some-none_of test ss (All-map ss (λ s. (decides s).1) h)),
  )

  if_present_iff : (o : Option Value) → (each_if_present test o ≡ none) ↔ WherePresent P o
  if_present_iff none = ((λ h. tt), (λ h. refl))
  if_present_iff (some v) = loop_iff (flatten_scalars v)

  scalar_iff : (fld : Text) (ss : List Scalar) → (each_scalar fld test ss ≡ none) ↔ SomeAndAll P ss
  scalar_iff fld [] = ((λ h. cc), (λ h. absurd h))
  scalar_iff fld (s ∷ ss) = loop_iff (s ∷ ss)

  present_iff : (fld : Text) (o : Option Value) → (each_present fld test o ≡ none) ↔ Throughout P o
  present_iff fld none = ((λ h. cc), (λ h. absurd h))
  present_iff fld (some v) = scalar_iff fld (flatten_scalars v)

string_iff :
    (p : Platform) (fld prefix : Text) (o : Option Value)
    → (string_matches p fld prefix o ≡ none) ↔ AsString (λ s. prefix_matches p prefix s ≡ true) o
string_iff p fld prefix none = ((λ h. cc), (λ h. absurd h))
string_iff p fld prefix (some (arr xs)) = ((λ h. cc), (λ h. absurd h))
string_iff p fld prefix (some (obj fs)) = ((λ h. cc), (λ h. absurd h))
string_iff p fld prefix (some (scalar null)) = ((λ h. cc), (λ h. absurd h))
string_iff p fld prefix (some (scalar (bool b))) = ((λ h. cc), (λ h. absurd h))
string_iff p fld prefix (some (scalar (int n))) = ((λ h. cc), (λ h. absurd h))
string_iff p fld prefix (some (scalar (float x))) = ((λ h. cc), (λ h. absurd h))
string_iff p fld prefix (some (scalar (str s))) = ground arith

forbidden-decides :
    (fld : Text) (bads : List Scalar) (s : Scalar)
    → ((if contains bads s then some (forbidden fld s) else none) ≡ none)
      ↔ (contains bads s ≡ false)
forbidden-decides fld bads s = ground arith

allowed-decides :
    (fld : Text) (oks : List Scalar) (s : Scalar)
    → ((if not (contains oks s) then some (not_allowed fld s) else none) ≡ none)
      ↔ (contains oks s ≡ true)
allowed-decides fld oks s = ground arith

bound-decides :
    (bad out : Violation) (number beyond : Bool)
    → ((if not number then some bad else if beyond then some out else none) ≡ none)
      ↔ ((number ≡ true) × (beyond ≡ false))
bound-decides bad out number beyond = ground arith

module _ (p : Platform) (args : Fields) where
  forbidden_iff :
      (e : Text × List Scalar)
      → (forbidden_entry args e ≡ none)
        ↔ WherePresent (λ s. contains e.1 s ≡ false) (get_field e.0 args)
  unfolding forbidden_entry
  forbidden_iff (k, bads) = if_present_iff _ _ (forbidden-decides k bads) (get_field k args)

  allowed_iff :
      (e : Text × List Scalar)
      → (allowed_entry args e ≡ none) ↔ Throughout (λ s. contains e.1 s ≡ true) (get_field e.0 args)
  unfolding allowed_entry
  allowed_iff (k, oks) = present_iff _ _ (allowed-decides k oks) k (get_field k args)

  prefix_iff :
      (e : Text × Text)
      → (starts_with_entry p args e ≡ none)
        ↔ AsString (λ s. prefix_matches p e.1 s ≡ true) (get_field e.0 args)
  unfolding starts_with_entry
  prefix_iff (k, prefix) = string_iff p k prefix (get_field k args)

  max_iff :
      (e : Text × ℤ) → (max_entry args e ≡ none) ↔ Throughout (AtMost e.1) (get_field e.0 args)
  unfolding max_entry
  max_iff (k, b) =
      present_iff _ (AtMost b)
        (λ s. bound-decides (not_a_number k s) (exceeds_max k s) (is_number s) (above s b)) k
        (get_field k args)

  min_iff :
      (e : Text × ℤ) → (min_entry args e ≡ none) ↔ Throughout (AtLeast e.1) (get_field e.0 args)
  unfolding min_entry
  min_iff (k, b) =
      present_iff _ (AtLeast b)
        (λ s. bound-decides (not_a_number k s) (below_min k s) (is_number s) (below s b)) k
        (get_field k args)

  required_iff : (k : Text) → (required_entry args k ≡ none) ↔ (has_field args k ≡ true)
  unfolding required_entry
  required_iff k = ground arith

  combination_iff :
      (ks : List Text) → (combination_entry args ks ≡ none) ↔ (all (has_field args) ks ≡ false)
  unfolding combination_entry
  combination_iff ks = ground arith

-- The gate's checkers find nothing in the arguments of a call exactly when the arguments meet the
-- constraints: no forbidden value anywhere in a field; a field with allowed values, or with a bound, is
-- there, holds a scalar, and only allowed values, or only numbers in the bound; a field with a prefix is a
-- string that matches it; required fields are there; no forbidden combination of fields is complete; and
-- every kind of the constraints is in the registry.
pub check-Meets :
    (p : Platform) (c : Constraints) (args : Fields)
    → (check_constraints p c args ≡ none) ↔ Meets p c args
check-Meets p c args = (
  (λ h.
      (let k = Pass-of_check p c args h in
        record {
          forbidden_values = All-map _ (λ e. (forbidden_iff p args e).0) k.forbidden;
          allowed_values = All-map _ (λ e. (allowed_iff p args e).0) k.allowed;
          starts_with = All-map _ (λ e. (prefix_iff p args e).0) k.prefixes;
          max_value = All-map _ (λ e. (max_iff p args e).0) k.ceilings;
          min_value = All-map _ (λ e. (min_iff p args e).0) k.floors;
          required_present = All-map _ (λ e. (required_iff p args e).0) k.present;
          forbidden_field_combinations = All-map _ (λ e. (combination_iff p args e).0) k.combos;
          other_kinds = k.registered;
        })),
  (λ k. check-of_Pass p c args (record {
    forbidden = All-map _ (λ e. (forbidden_iff p args e).1) k.forbidden_values;
    allowed = All-map _ (λ e. (allowed_iff p args e).1) k.allowed_values;
    prefixes = All-map _ (λ e. (prefix_iff p args e).1) k.starts_with;
    ceilings = All-map _ (λ e. (max_iff p args e).1) k.max_value;
    floors = All-map _ (λ e. (min_iff p args e).1) k.min_value;
    present = All-map _ (λ e. (required_iff p args e).1) k.required_present;
    combos = All-map _ (λ e. (combination_iff p args e).1) k.forbidden_field_combinations;
    registered = k.other_kinds;
  })),
)
