-- ===== src/Issuer.antt =====
-- `CapabilityIssuer`: `mint` and `attenuate` (raucle/capability.py).
use raucle.Prelude.{
  ◌*◌, Bool, true, false, not, ◌&&◌, Option, none, some, List, [], ◌∷◌, all, if◌then◌else◌,
}
use raucle.Prelude.Int.{ℤ, pos, ◌+ℤ◌, ltb_ℤ, leb_ℤ, max_ℤ}
use raucle.Text.{Text, text, text_eq, is_empty}
use raucle.Json.{Scalar, int, Fields}
use raucle.Platform.{Platform, Bytes}
use raucle.Result.{
  Result, ok, err, bad_agent_id, bad_tool, bad_principal, bad_intent, bad_ttl, policy_unproven,
  hash_conflict, no_pq_key, unsigned_parent, expired_parent, ◌>>=◌, ◌>>◌, require,
}
use raucle.Constraints.{
  Constraints, decode_constraints, read_extra, normalise_constraints, merge_narrowing,
}
use raucle.Token.{
  Intent, Capability, signed_material, token_id_of, is_agent_id, is_principal, is_tool,
}
use raucle.Delegation.{
  assert_narrowing, narrow_agent_id, narrow_acting_for, narrow_intent, narrow_expiry,
}

-- The parts of raucle/prove.py's `ProofResult` that tokens cite.
pub record ProofResult : Type 0 where
  pub hash : Text
  pub status : Text
  pub grammar_hash : Text
  pub policy_hash : Text

-- The key is held as the function that signs with it, here or in a remote signer.
pub record CapabilityIssuer : Type 0 where
  pub issuer : Text
  pub key_id : Text
  pub sign : Bytes → Bytes
  pub require_proof : Bool
  pub pq_key_id : Text
  pub pq_sign : Option (Bytes → Bytes)

-- The arguments of `mint`.
pub record MintRequest : Type 0 where
  pub agent_id : Text
  pub tool : Text
  pub constraints : Fields
  pub ttl_seconds : Scalar
  pub not_before_offset : ℤ
  pub policy_proof_hash : Option Text
  pub proof_result : Option ProofResult
  pub grammar_hash : Option Text
  pub policy_hash : Option Text
  pub quantum : Bool
  pub intent : Option Intent
  pub acting_for : Text

-- The arguments of `attenuate` beside the parent; the extra constraints are the raw object.
pub record Restriction : Type 0 where
  pub extra_constraints : Fields
  pub narrower_ttl_seconds : Option ℤ
  pub narrower_agent_id : Option Text
  pub intent : Option Intent
  pub acting_for : Text

abbrev pub nonempty_tools : Option (List Text) → Bool
nonempty_tools none = true
nonempty_tools (some []) = false
nonempty_tools (some (t ∷ ts)) = all (λ s. not (is_empty s)) (t ∷ ts)

-- `_validate_intent`
unfoldable pub validate_intent : Option Intent → Result (Unit {0})
validate_intent none = ok tt
validate_intent (some i) = require (not (is_empty i.statement) && nonempty_tools i.tools) bad_intent

abbrev pub max_ttl_seconds : ℤ
max_ttl_seconds = pos (366 * 24 * 60 * 60)

-- A positive integer, no bool, of at most a year and a day.
unfoldable pub validate_ttl : Scalar → Result ℤ
validate_ttl (int n) =
    if leb_ℤ n (pos 0) then err bad_ttl else if ltb_ℤ max_ttl_seconds n then err bad_ttl else ok n
validate_ttl _ = err bad_ttl

abbrev pub is_proven : ProofResult → Bool
is_proven r = text_eq r.status (text "PROVEN")

-- Strict mode wants a proof that is proven.
abbrev pub strict_mint : Bool → Option ProofResult → Bool
strict_mint false r = true
strict_mint true none = false
strict_mint true (some r) = is_proven r

-- A hash that the caller gave agrees with the proof's.
abbrev agrees : Option Text → Text → Bool
agrees none h = true
agrees (some g) h = text_eq g h

-- The policy proof hash, the grammar hash and the policy hash of the token (`_bind_proof_hashes`).
unfoldable pub bind_proof_hashes : MintRequest → Result (Option Text × Option Text × Option Text)
bind_proof_hashes q = elim q.proof_result [
  | none ↦ ok (q.policy_proof_hash, q.grammar_hash, q.policy_hash)
  | some r ↦ (do
    require (is_proven r) policy_unproven
    require (agrees q.policy_proof_hash r.hash) hash_conflict
    require (agrees q.grammar_hash r.grammar_hash) policy_unproven
    require (agrees q.policy_hash r.policy_hash) policy_unproven
    ok (some r.hash, some r.grammar_hash, some r.policy_hash))
]

-- The token id and the signature, both from the body.
unfoldable pub seal : Platform → CapabilityIssuer → Capability → Result Capability
seal p s t = do
  m ← signed_material p t
  ok (record t { token_id = token_id_of p m; signature = p.b64 (s.sign m) })

-- The post-quantum component of a hybrid token, over the same bytes.
unfoldable pub seal_hybrid : Platform → CapabilityIssuer → Capability → Result Capability
seal_hybrid p s t = elim s.pq_sign [
  | none ↦ err no_pq_key
  | some pq ↦ (do
    m ← signed_material p t
    ok (record t { pq_key_id = some s.pq_key_id; pq_signature = some (p.b64 (pq m)) }))
]

-- The token before it is sealed.
abbrev pub draft :
    CapabilityIssuer
    → ℤ
    → MintRequest
    → ℤ
    → Option Text × Option Text × Option Text
    → Constraints
    → Capability
draft s now q ttl hashes constraints = record {
  token_id = [];
  agent_id = q.agent_id;
  tool = q.tool;
  constraints = constraints;
  issuer = s.issuer;
  key_id = s.key_id;
  issued_at = now;
  not_before = now +ℤ q.not_before_offset;
  expires_at = now +ℤ ttl;
  parent_id = none;
  intent = q.intent;
  acting_for = q.acting_for;
  policy_proof_hash = hashes.0;
  grammar_hash = hashes.1;
  policy_hash = hashes.2;
  signature = [];
  pq_key_id = none;
  pq_signature = none;
}

-- `if quantum`
abbrev pub finish : Platform → CapabilityIssuer → Bool → Capability → Result Capability
finish p s true t = seal_hybrid p s t
finish p s false t = ok t

unfoldable pub mint : Platform → CapabilityIssuer → ℤ → MintRequest → Result Capability
unfolding validate_intent validate_ttl bind_proof_hashes seal
mint p s now q = do
  require (is_agent_id q.agent_id) bad_agent_id
  require (is_tool q.tool) bad_tool
  validate_intent q.intent
  require (if is_empty q.acting_for then true else is_principal q.acting_for) bad_principal
  ttl ← validate_ttl q.ttl_seconds
  require (strict_mint s.require_proof q.proof_result) policy_unproven
  hashes ← bind_proof_hashes q
  decoded ← decode_constraints q.constraints
  constraints ← normalise_constraints p decoded
  t ← seal p s (draft s now q ttl hashes constraints)
  finish p s q.quantum t

unfoldable pub attenuate :
    Platform → CapabilityIssuer → ℤ → Capability → Restriction → Result Capability
unfolding validate_intent seal
attenuate p s now parent q = do
  require (not (is_empty parent.signature)) unsigned_parent
  require (ltb_ℤ now parent.expires_at) expired_parent
  agent_id ← narrow_agent_id parent q.narrower_agent_id
  extra ← read_extra q.extra_constraints
  merged ← merge_narrowing p parent.constraints extra
  assert_narrowing parent.constraints merged
  validate_intent q.intent
  acting_for ← narrow_acting_for parent q.acting_for
  intent ← narrow_intent p parent q.intent
  expires_at ← narrow_expiry parent now q.narrower_ttl_seconds
  seal p s (record {
    token_id = [];
    agent_id = agent_id;
    tool = parent.tool;
    constraints = merged;
    issuer = s.issuer;
    key_id = s.key_id;
    issued_at = now;
    not_before = max_ℤ now parent.not_before;
    expires_at = expires_at;
    parent_id = some parent.token_id;
    intent = intent;
    acting_for = acting_for;
    policy_proof_hash = parent.policy_proof_hash;
    grammar_hash = none;
    policy_hash = none;
    signature = [];
    pq_key_id = none;
    pq_signature = none;
  })
