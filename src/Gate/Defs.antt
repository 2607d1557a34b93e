-- ===== src/Gate/Defs.antt =====
-- `GateDecision`, and the state of a `CapabilityGate`.
use raucle.Prelude.{Bool, true, false, Option, none, some, List, [], ◌∷◌, if◌then◌else◌}
use raucle.Text.{Text, text, text_eq}
use raucle.Json.{Fields}
use raucle.Dict.{Dict}
use raucle.Result.{Result, ok, err, no_issuer, bad_proof_mode}
use raucle.Constraints.{Violation}
use raucle.Token.{Capability}
use raucle.Delegation.{Broadening}
use raucle.Issuer.{ProofResult}

pub data Reason : Type 0 where
  granted unknown_key bad_signature no_pq_key bad_pq_signature wrong_token_id token_revoked : Reason
  parent_revoked not_yet_valid expired wrong_tool malformed_caller wrong_agent wrong_user : Reason
  outside_intent no_proof_hash proof_not_cached proof_not_proven wrong_grammar_hash : Reason
  wrong_policy_hash missing_binding unbound_proof no_resolver : Reason
  constraint_violated intent_violated : Violation → Reason
  unresolved_parent untrusted_parent bad_parent_signature ancestor_revoked : Text → Reason
  invalid_attenuation : Text → Broadening → Reason

pub record GateDecision : Type 0 where
  pub allowed : Bool
  pub reason : Reason
  pub token_id : Option Text
  pub chain : List Text
  pub attributable : Bool

abbrev pub deny : Capability → Reason → GateDecision
deny t r = record {
  allowed = false;
  reason = r;
  token_id = some t.token_id;
  chain = [];
  attributable = false;
}

-- A refusal after the caller's identity is established.
abbrev pub misuse : Capability → Reason → GateDecision
misuse t r = record (deny t r) { attributable = true }

-- A refusal on the way up the chain.
abbrev pub deny_at : Capability → List Text → Reason → GateDecision
deny_at t chain r = record (deny t r) { chain = chain }

abbrev pub allow : Capability → List Text → GateDecision
allow t chain = record {
  allowed = true;
  reason = granted;
  token_id = some t.token_id;
  chain = chain;
  attributable = false;
}

pub data ProofMode : Type 0 where
  off lenient strict : ProofMode

pub record CapabilityGate : Type 0 where
  pub issuers : Dict Text
  pub resolver : Option (Text → Option Capability)
  pub proof_mode : ProofMode
  pub trusted_proofs : Dict ProofResult
  pub revoked : List Text
  pub pq_public_keys : Dict (Option Text)

-- The arguments of `check` beside the token and the time.
pub record Call : Type 0 where
  pub tool : Text
  pub agent_id : Option Text
  pub args : Fields
  pub acting_for : Option Text

abbrev parse_mode : Text → Option ProofMode
parse_mode m =
    if text_eq m (text "off")
    then some off
    else if text_eq m (text "lenient")
    then some lenient
    else if text_eq m (text "strict")
    then some strict
    else none

-- `CapabilityGate.__init__`; a key that could not be read is held as `none`.
pub new_gate :
    Dict Text
    → Option (Text → Option Capability)
    → Text
    → Dict ProofResult
    → List Text
    → Dict (Option Text)
    → Result CapabilityGate
new_gate [] resolver mode proofs revoked pq_keys = err no_issuer
new_gate (i ∷ issuers) resolver mode proofs revoked pq_keys = elim (parse_mode mode) [
  | none ↦ err bad_proof_mode
  | some m ↦ ok (record {
    issuers = i ∷ issuers;
    resolver = resolver;
    proof_mode = m;
    trusted_proofs = proofs;
    revoked = revoked;
    pq_public_keys = pq_keys;
  })
]

-- `CapabilityGate.revoke`, on a set.
abbrev pub revoke : CapabilityGate → Text → CapabilityGate
revoke g token_id = record g { revoked = token_id ∷ g.revoked }
