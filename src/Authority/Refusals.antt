-- ===== src/Authority/Refusals.antt =====
-- Each stage of the gate only refuses, and marks its refusals by the stage.
use raucle.Prelude.{◌≡◌, refl, Bool, true, false, Option, none, some, [], ◌∷◌, ◌<|>◌, arith}
use raucle.Prelude.Int.{ℤ}
use raucle.Text.{Text}
use raucle.Json.{Fields}
use raucle.Platform.{Platform}
use raucle.Dict.{get}
use raucle.Token.{Capability}
use raucle.Issuer.{ProofResult}
use raucle.Gate.{
  GateDecision, CapabilityGate, Call, check_signature, check_hybrid_signature, check_token_id,
  check_revocation, check_time_bounds, check_token_identity, check_tool_binding, check_agent_id,
  check_caller_identity, check_call_args, check_intent_scope, check_attributable_binding,
  check_proof_binding, check_proof_enforcement, check_proof_hash_mismatch, check_strict_binding,
  if_strict, check_cited, check_hash, unless_off, misuse, no_proof_hash, proof_not_cached,
  ProofMode, off, lenient, strict,
}

-- No decision, or a refusal with the given mark.
abbrev pub Refuses : Bool → Option GateDecision → Type 0
Refuses mark none = Unit
Refuses mark (some d) = (d.allowed ≡ false) × (d.attributable ≡ mark)

-- No decision, or a refusal.
abbrev pub Denies : Option GateDecision → Type 0
Denies none = Unit
Denies (some d) = d.allowed ≡ false

pub Refuses-or :
    (mark : Bool) (x y : Option GateDecision)
    → Refuses mark x
    → Refuses mark y
    → Refuses mark (x <|> y)
Refuses-or mark none y p q = q
Refuses-or mark (some d) y p q = p

pub Refuses-Denies : (mark : Bool) (x : Option GateDecision) → Refuses mark x → Denies x
Refuses-Denies mark none h = tt
Refuses-Denies mark (some d) h = h.0

pub Denies-or : (x y : Option GateDecision) → Denies x → Denies y → Denies (x <|> y)
Denies-or none y p q = q
Denies-or (some d) y p q = p

module _ (p : Platform) (g : CapabilityGate) (t : Capability) where
  signature-Refuses : Refuses false (check_signature p g t)
  unfolding check_signature
  signature-Refuses = ground arith

  hybrid-Refuses : Refuses false (check_hybrid_signature p g t)
  unfolding check_hybrid_signature
  hybrid-Refuses = ground arith

  token_id-Refuses : Refuses false (check_token_id p t)
  unfolding check_token_id
  token_id-Refuses = ground arith

  revocation-Refuses : Refuses false (check_revocation g t)
  unfolding check_revocation
  revocation-Refuses = ground arith

  time_bounds-Refuses : (ts : ℤ) → Refuses false (check_time_bounds t ts)
  unfolding check_time_bounds
  time_bounds-Refuses ts = ground arith

  pub identity-Refuses : (ts : ℤ) → Refuses false (check_token_identity p g t ts)
  unfolding check_token_identity
  identity-Refuses ts = Refuses-or false (check_signature p g t) _ signature-Refuses (
      Refuses-or false (check_hybrid_signature p g t) _ hybrid-Refuses (
        Refuses-or false (check_token_id p t) _ token_id-Refuses
          (Refuses-or false (check_revocation g t) _ revocation-Refuses (time_bounds-Refuses ts))))

  tool-Refuses : (tool : Text) → Refuses true (check_tool_binding t tool)
  unfolding check_tool_binding
  tool-Refuses tool = ground arith

  caller-Refuses : (a u : Option Text) → Refuses true (check_caller_identity t a u)
  unfolding check_caller_identity check_agent_id
  caller-Refuses a u = ground arith

  args-Refuses : (args : Fields) → Refuses true (check_call_args p t args)
  unfolding check_call_args
  args-Refuses args = ground arith

  intent-Refuses : (args : Fields) → Refuses true (check_intent_scope p t args)
  unfolding check_intent_scope
  intent-Refuses args = ground arith

  pub binding-Refuses : (call : Call) → Refuses true (check_attributable_binding p t call)
  unfolding check_attributable_binding
  binding-Refuses call =
      Refuses-or true (check_tool_binding t call.tool) _ (tool-Refuses call.tool) (
        Refuses-or true (check_caller_identity t call.agent_id call.acting_for) _
          (caller-Refuses call.agent_id call.acting_for)
          (Refuses-or true (check_call_args p t call.args) _ (args-Refuses call.args)
            (intent-Refuses call.args)))

  hash_mismatch-Denies : (r : ProofResult) → Denies (check_proof_hash_mismatch t r)
  unfolding check_proof_hash_mismatch
  hash_mismatch-Denies r = ground arith

  strict-Denies : Denies (check_strict_binding p t)
  unfolding check_strict_binding
  strict-Denies = ground arith

  if_strict-Denies : (m : ProofMode) (d : Option GateDecision) → Denies d → Denies (if_strict m d)
  if_strict-Denies off d h = tt
  if_strict-Denies lenient d h = tt
  if_strict-Denies strict d h = h

  cited-Denies : (m : ProofMode) (r : Option ProofResult) → Denies (check_cited p m t r)
  cited-Denies m none = if_strict-Denies m (some (misuse t proof_not_cached)) refl
  cited-Denies m (some r) =
      Denies-or (check_proof_hash_mismatch t r) _ (hash_mismatch-Denies r)
        (if_strict-Denies m (check_strict_binding p t) strict-Denies)

  hash-Denies : (h : Option Text) → Denies (check_hash p g t h)
  hash-Denies none = if_strict-Denies g.proof_mode (some (misuse t no_proof_hash)) refl
  hash-Denies (some []) = if_strict-Denies g.proof_mode (some (misuse t no_proof_hash)) refl
  hash-Denies (some (c ∷ h)) = cited-Denies g.proof_mode (get (c ∷ h) g.trusted_proofs)

  unless_off-Denies : (m : ProofMode) (d : Option GateDecision) → Denies d → Denies (unless_off m d)
  unless_off-Denies off d h = tt
  unless_off-Denies lenient d h = h
  unless_off-Denies strict d h = h

  pub proof-Denies : Denies (check_proof_enforcement p g t)
  unfolding check_proof_enforcement check_proof_binding
  proof-Denies =
      unless_off-Denies g.proof_mode (check_hash p g t t.policy_proof_hash)
        (hash-Denies t.policy_proof_hash)
