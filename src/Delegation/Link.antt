-- ===== src/Delegation/Link.antt =====
-- What one link of a chain promises: the child is inside the parent (`_attenuation_violation`).
use raucle.Prelude.{◌≡◌, true, none, arith}
use raucle.Prelude.Int.{◌≤ℤ◌}
use raucle.Text.{text_eq, text_eq_sound}
use raucle.Json.{Fields}
use raucle.Platform.{Platform}
use raucle.Result.{ok}
use raucle.Constraints.{
  Constraints, normalise_constraints, merge_narrowing, constraints_eq, check_constraints,
  HasPlainPrefixes, Pass-of_check, check-of_Pass, constraints_eq-Pass,
}
use raucle.Constraints.Narrowing.{normalise-same_calls, merge-narrows-parent}
use raucle.Token.{Capability, in_scope}
use raucle.Delegation.Narrow.{constraints_violation, attenuation_violation}

-- The child uses the tool of the parent, in its scope and its window, and narrows its constraints.
pub record Narrower (p : Platform) (child parent : Capability) : Type 0 where
  pub tool : child.tool ≡ parent.tool
  pub scope : in_scope parent.agent_id child.agent_id ≡ true
  pub expiry : child.expires_at ≤ℤ parent.expires_at
  pub start : parent.not_before ≤ℤ child.not_before
  pub constraints : constraints_violation p child.constraints parent.constraints ≡ none

pub violation-Narrower :
    (p : Platform) (child parent : Capability)
    → attenuation_violation p child parent ≡ none
    → Narrower p child parent
unfolding attenuation_violation
violation-Narrower p child parent h =
    let tool : text_eq child.tool parent.tool ≡ true = ground arith in
    let scope : in_scope parent.agent_id child.agent_id ≡ true = ground arith in
    let expiry : child.expires_at ≤ℤ parent.expires_at = ground arith in
    let start : parent.not_before ≤ℤ child.not_before = ground arith in
    let rest : constraints_violation p child.constraints parent.constraints ≡ none = ground arith in
    record {
      tool = text_eq_sound child.tool parent.tool tool;
      scope = scope;
      expiry = expiry;
      start = start;
      constraints = rest;
    }

-- The merge and the normal form that the test compared.
compared :
    (p : Platform) (child parent : Constraints)
    → constraints_violation p child parent ≡ none
    → (merged own : Constraints) × (merge_narrowing p parent child ≡ ok merged)
      × (normalise_constraints p child ≡ ok own)
      × (constraints_eq merged own ≡ true)
unfolding constraints_violation
compared p child parent h = ground arith

-- A link that shows no broadening of the constraints: every call that the child's constraints admit is
-- admitted by the parent's, when no prefix of the parent is a file URI.
pub link-admits :
    (p : Platform) (child parent : Constraints) (args : Fields)
    → HasPlainPrefixes parent
    → constraints_violation p child parent ≡ none
    → check_constraints p child args ≡ none
    → check_constraints p parent args ≡ none
link-admits p child parent args plain h k =
    let (merged, own, made, normal, same) = compared p child parent h in
    let k' = Pass-of_check p own args ((normalise-same_calls p child own args normal).1 k) in
    merge-narrows-parent p parent child merged args plain made
      (check-of_Pass p merged args (constraints_eq-Pass p merged own args same k'))
