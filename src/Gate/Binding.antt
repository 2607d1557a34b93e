-- ===== src/Gate/Binding.antt =====
-- The attributable stages of the gate: tool, caller, arguments and intent; and the proof binding.
use raucle.Prelude.{
  Bool, true, false, not, ◌&&◌, Option, none, some, List, [], ◌∷◌, ◌++◌, ◌<|>◌, if◌then◌else◌,
}
use raucle.Text.{Text, text, text_eq, is_empty, mem_text}
use raucle.Json.{Fields}
use raucle.Json.Canon.{canonical_json}
use raucle.Platform.{Platform}
use raucle.Dict.{get}
use raucle.Result.{ok, err, ◌>>=◌}
use raucle.Constraints.{Constraints, Violation, check_constraints, normalise_constraints}
use raucle.Token.{Capability, constraints_value, is_agent_id, in_scope}
use raucle.Issuer.{ProofResult, is_proven}
use raucle.Gate.Defs.{
  Reason, GateDecision, CapabilityGate, ProofMode, off, strict, Call, deny, misuse, wrong_tool,
  malformed_caller, wrong_agent, wrong_user, outside_intent, constraint_violated, intent_violated,
  no_proof_hash, proof_not_cached, proof_not_proven, wrong_grammar_hash, wrong_policy_hash,
  missing_binding, unbound_proof,
}

-- `_check_tool_binding`
unfoldable pub check_tool_binding : Capability → Text → Option GateDecision
check_tool_binding t tool = if text_eq t.tool tool then none else some (misuse t wrong_tool)

-- `_check_agent_id`
unfoldable pub check_agent_id : Capability → Text → Option GateDecision
check_agent_id t agent_id =
    if not (is_agent_id agent_id)
    then some (misuse t malformed_caller)
    else if not (in_scope t.agent_id agent_id)
    then some (misuse t wrong_agent)
    else none

abbrev check_agent : Capability → Option Text → Option GateDecision
check_agent t none = none
check_agent t (some agent_id) = check_agent_id t agent_id

-- The call declares the user that the token is bound to. (An empty name declares nobody.)
abbrev pub declares : Text → Option Text → Bool
declares user none = false
declares user (some u) = text_eq u user

-- `_check_caller_identity`
unfoldable pub check_caller_identity : Capability → Option Text → Option Text → Option GateDecision
check_caller_identity t agent_id acting_for =
    check_agent t agent_id
    <|> (if not (is_empty t.acting_for) && not (declares t.acting_for acting_for)
        then some (misuse t wrong_user)
        else none)

abbrev pub as_misuse : Capability → (Violation → Reason) → Option Violation → Option GateDecision
as_misuse t r none = none
as_misuse t r (some why) = some (misuse t (r why))

-- `_check_call_args`
unfoldable pub check_call_args : Platform → Capability → Fields → Option GateDecision
check_call_args p t args = as_misuse t constraint_violated (check_constraints p t.constraints args)

abbrev pub tool_in : Text → Option (List Text) → Bool
tool_in tool none = true
tool_in tool (some tools) = mem_text tool tools

-- An intent without constraints restricts nothing.
abbrev pub intent_violation : Platform → Option Constraints → Fields → Option Violation
intent_violation p none args = none
intent_violation p (some c) args = check_constraints p c args

-- `_check_intent_scope`
unfoldable pub check_intent_scope : Platform → Capability → Fields → Option GateDecision
check_intent_scope p t args = elim t.intent [
  | none ↦ none
  | some i ↦
      if not (tool_in t.tool i.tools)
      then some (misuse t outside_intent)
      else as_misuse t intent_violated (intent_violation p i.constraints args)
]

-- `_check_attributable_binding`
unfoldable pub check_attributable_binding : Platform → Capability → Call → Option GateDecision
check_attributable_binding p t call =
    check_tool_binding t call.tool
    <|> check_caller_identity t call.agent_id call.acting_for
    <|> check_call_args p t call.args
    <|> check_intent_scope p t call.args

-- A hash that the token gives is the proof's. (`None` and the empty text give none.)
abbrev pub hash_agrees : Option Text → Text → Bool
hash_agrees none h = true
hash_agrees (some []) h = true
hash_agrees (some (c ∷ s)) h = text_eq (c ∷ s) h

abbrev pub hash_given : Option Text → Bool
hash_given none = false
hash_given (some s) = not (is_empty s)

-- `_check_proof_hash_mismatch`
unfoldable pub check_proof_hash_mismatch : Capability → ProofResult → Option GateDecision
check_proof_hash_mismatch t r =
    if not (is_proven r)
    then some (misuse t proof_not_proven)
    else if not (hash_agrees t.grammar_hash r.grammar_hash)
    then some (misuse t wrong_grammar_hash)
    else if not (hash_agrees t.policy_hash r.policy_hash)
    then some (misuse t wrong_policy_hash)
    else none

abbrev option_eq : Option Text → Text → Bool
option_eq none s = false
option_eq (some t) s = text_eq t s

-- The hash of the constraints that the gate enforces is the token's policy hash.
unfoldable pub policy_bound : Platform → Capability → Bool
policy_bound p t =
    elim (normalise_constraints p t.constraints >>= λ c. canonical_json p (constraints_value c)) [
      | err e ↦ false
      | ok bytes ↦ option_eq t.policy_hash (text "sha256:" ++ p.sha256_hex bytes)
    ]

-- The two last tests of strict mode.
unfoldable pub check_strict_binding : Platform → Capability → Option GateDecision
check_strict_binding p t =
    if not (hash_given t.grammar_hash && hash_given t.policy_hash)
    then some (misuse t missing_binding)
    else if not (policy_bound p t)
    then some (deny t unbound_proof)
    else none

abbrev pub if_strict : ProofMode → Option GateDecision → Option GateDecision
if_strict strict d = d
if_strict _ d = none

-- The cited proof, if the cache has it.
abbrev pub check_cited :
    Platform → ProofMode → Capability → Option ProofResult → Option GateDecision
check_cited p mode t none = if_strict mode (some (misuse t proof_not_cached))
check_cited p mode t (some r) =
    check_proof_hash_mismatch t r <|> if_strict mode (check_strict_binding p t)

-- `if not token.policy_proof_hash`, and the lookup in the cache.
abbrev pub check_hash : Platform → CapabilityGate → Capability → Option Text → Option GateDecision
check_hash p g t none = if_strict g.proof_mode (some (misuse t no_proof_hash))
check_hash p g t (some []) = if_strict g.proof_mode (some (misuse t no_proof_hash))
check_hash p g t (some (c ∷ h)) = check_cited p g.proof_mode t (get (c ∷ h) g.trusted_proofs)

-- `_check_proof_binding`
unfoldable pub check_proof_binding : Platform → CapabilityGate → Capability → Option GateDecision
check_proof_binding p g t = check_hash p g t t.policy_proof_hash

abbrev pub unless_off : ProofMode → Option GateDecision → Option GateDecision
unless_off off d = none
unless_off _ d = d

-- `_check_proof_enforcement`
unfoldable pub check_proof_enforcement :
    Platform → CapabilityGate → Capability → Option GateDecision
check_proof_enforcement p g t = unless_off g.proof_mode (check_proof_binding p g t)
