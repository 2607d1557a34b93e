-- ===== src/Issuance/Attenuated.antt =====
-- A token that `attenuate` returns gives no more than its parent (raucle/capability.py).
use mathlib.Core.Path.{subst}
use raucle.Prelude.{◌≡◌, refl, sym, ◌∙◌, true, false, not, Option, none, some, [], ◌∷◌, arith}
use raucle.Prelude.Int.{ℤ, ◌≤ℤ◌, ltb_ℤ, max_ℤ}
use raucle.Text.{Text, text_eq_sound, is_empty}
use raucle.Json.{Fields}
use raucle.Platform.{Platform}
use raucle.Result.{ok, >>=-eq-ok, require-eq-ok, ok-injective}
use raucle.Constraints.{
  Constraints, read_extra, registered_part, merge_narrowing, check_constraints, HasPlainPrefixes,
}
use raucle.Constraints.Narrowing.{merge-narrows-parent, merge-narrows-extra}
use raucle.Token.{Capability, in_scope}
use raucle.Token.Scope.{in_scope_refl}
use raucle.Delegation.{
  assert_narrowing, narrow_agent_id, narrow_acting_for, narrow_intent, narrow_expiry,
}
use raucle.Issuer.{CapabilityIssuer, Restriction, validate_intent, attenuate}
use raucle.Issuance.Seals.{seal-Sealed}

-- The child cites the parent, has its tool, is in its scope and its window, speaks for its user if it
-- has one, and has the merge of the parent's constraints with those read from the extra object.
pub record Attenuates (p : Platform) (parent : Capability) (raw : Fields) (child : Capability)
    : Type 0 where
  pub cites : child.parent_id ≡ some parent.token_id
  pub tool : child.tool ≡ parent.tool
  pub scope : in_scope parent.agent_id child.agent_id ≡ true
  pub user : is_empty parent.acting_for ≡ false → child.acting_for ≡ parent.acting_for
  pub expiry : child.expires_at ≤ℤ parent.expires_at
  pub start : parent.not_before ≤ℤ child.not_before
  pub extra : Constraints
  pub reads : read_extra raw ≡ ok extra
  pub merged : merge_narrowing p parent.constraints extra ≡ ok child.constraints
  pub proof : child.policy_proof_hash ≡ parent.policy_proof_hash

agent-in_scope :
    (parent : Capability) (o : Option Text) (a : Text)
    → narrow_agent_id parent o ≡ ok a
    → in_scope parent.agent_id a ≡ true
unfolding narrow_agent_id in_scope
agent-in_scope parent none a h =
    subst (λ x. in_scope parent.agent_id x ≡ true) (ok-injective h) (in_scope_refl parent.agent_id)
agent-in_scope parent (some []) a h =
    subst (λ x. in_scope parent.agent_id x ≡ true) (ok-injective h) (in_scope_refl parent.agent_id)
agent-in_scope parent (some (c ∷ s)) a h = ground (arith)

acting_for-kept :
    (parent : Capability) (given a : Text)
    → narrow_acting_for parent given ≡ ok a
    → is_empty parent.acting_for ≡ false
    → a ≡ parent.acting_for
unfolding narrow_acting_for
acting_for-kept parent given a h named = ground (arith, text_eq_sound given parent.acting_for)

expiry-within :
    (parent : Capability) (now e : ℤ) (ttl : Option ℤ)
    → narrow_expiry parent now ttl ≡ ok e
    → e ≤ℤ parent.expires_at
unfolding narrow_expiry
expiry-within parent now e ttl h = ground arith

start-within : (now n : ℤ) → n ≤ℤ max_ℤ now n
start-within now n = ground arith

-- A token that `attenuate` returns cites its parent and is not wider in any part: tool, agent, user,
-- window and proof; its constraints are the parent's, merged with those read from the extra object.
pub attenuate-Attenuates :
    (p : Platform) (s : CapabilityIssuer) (now : ℤ) (parent : Capability) (q : Restriction)
    (child : Capability)
    → attenuate p s now parent q ≡ ok child
    → Attenuates p parent q.extra_constraints child
unfolding attenuate
attenuate-Attenuates p s now parent q child h =
    let (_, h₁) = require-eq-ok (not (is_empty parent.signature)) _ _ h in
    let (_, h₂) = require-eq-ok (ltb_ℤ now parent.expires_at) _ _ h₁ in
    let (agent, e_agent, h₃) = >>=-eq-ok (narrow_agent_id parent q.narrower_agent_id) _ h₂ in
    let (extra, e_extra, k₃) = >>=-eq-ok (read_extra q.extra_constraints) _ h₃ in
    let (merged, e_merged, h₄) = >>=-eq-ok (merge_narrowing p parent.constraints extra) _ k₃ in
    let (_, _, h₅) = >>=-eq-ok (assert_narrowing parent.constraints merged) _ h₄ in
    let (_, _, h₆) = >>=-eq-ok (validate_intent q.intent) _ h₅ in
    let (user, e_user, h₇) = >>=-eq-ok (narrow_acting_for parent q.acting_for) _ h₆ in
    let (intent, _, h₈) = >>=-eq-ok (narrow_intent p parent q.intent) _ h₇ in
    let (expiry, e_expiry, h₉) = >>=-eq-ok (narrow_expiry parent now q.narrower_ttl_seconds) _ h₈ in
    let sealed = seal-Sealed p s _ child h₉ in
    subst (Attenuates p parent q.extra_constraints) (sym sealed.made) (record {
      cites = refl;
      tool = refl;
      scope = agent-in_scope parent q.narrower_agent_id agent e_agent;
      user = acting_for-kept parent q.acting_for user e_user;
      expiry = expiry-within parent now expiry q.narrower_ttl_seconds e_expiry;
      start = start-within now parent.not_before;
      extra = extra;
      reads = e_extra;
      merged = e_merged;
      proof = refl;
    })

-- A call that the constraints of an attenuated token admit is admitted by the parent's constraints, and by
-- those of the extra constraints that are of a kind in the registry, when neither has a file URI among
-- its prefixes. (Other members of the extra object are dropped in silence.)
pub attenuate-admits :
    (p : Platform) (s : CapabilityIssuer) (now : ℤ) (parent : Capability) (q : Restriction)
    (child : Capability) (extra : Constraints) (args : Fields)
    → HasPlainPrefixes parent.constraints
    → read_extra q.extra_constraints ≡ ok extra
    → HasPlainPrefixes extra
    → attenuate p s now parent q ≡ ok child
    → check_constraints p child.constraints args ≡ none
    → (check_constraints p parent.constraints args ≡ none)
      × (check_constraints p (registered_part extra) args ≡ none)
attenuate-admits p s now parent q child extra args plain e plain_extra h k =
    let made = attenuate-Attenuates p s now parent q child h in
    let same : made.extra ≡ extra = ok-injective (sym made.reads ∙ e) in
    let merged : merge_narrowing p parent.constraints extra ≡ ok child.constraints =
      subst (λ x. merge_narrowing p parent.constraints x ≡ ok child.constraints) same made.merged in
    (
      merge-narrows-parent p parent.constraints extra child.constraints args plain merged k,
      merge-narrows-extra p parent.constraints extra child.constraints args plain_extra merged k,
    )
