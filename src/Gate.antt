-- ===== src/Gate.antt =====
-- `CapabilityGate` (raucle/capability.py): the choke point before a tool runs.
mod Defs
mod Identity
mod Binding
mod Chain
pub use Defs.*
pub use Identity.{is_revoked, decoded_verifies}
unfoldable pub use Identity.{
  verify_signature, verify_hybrid, check_signature, check_hybrid_signature, check_token_id,
  check_revocation, check_time_bounds, check_token_identity,
}
pub use Binding.{
  hash_agrees, hash_given, if_strict, check_cited, check_hash, unless_off, tool_in,
  intent_violation, declares,
}
unfoldable pub use Binding.{
  check_proof_hash_mismatch, check_strict_binding, policy_bound, check_tool_binding, check_agent_id,
  check_caller_identity, check_call_args, check_intent_scope, check_attributable_binding,
  check_proof_binding, check_proof_enforcement,
}
pub use Chain.{Walk, cited, Onward, after_link, after_resolve, round, walk_if, walk_from}
unfoldable pub use Chain.{link_refusal, verify_ancestor_chain, check_chain}
use raucle.Prelude.{ℕ, Option, none, some, ◌<|>◌}
use raucle.Prelude.Int.{ℤ}
use raucle.Platform.{Platform}
use raucle.Token.{Capability}

-- The decision after the walk; no refusal on the way allows the call.
abbrev pub after_walk : Capability → Option Walk → Option GateDecision
after_walk t none = none
after_walk t (some (chain, none)) = some (allow t chain)
after_walk t (some (chain, some d)) = some d

-- The first refusal of the stages, or the outcome of the walk.
abbrev pub conclude : Capability → Option GateDecision → Option Walk → Option GateDecision
conclude t (some d) walk = some d
conclude t none walk = after_walk t walk

-- `CapabilityGate.check`; `none` means that the fuel for the chain ran out.
unfoldable pub check : ℕ → Platform → CapabilityGate → Capability → Call → ℤ → Option GateDecision
check fuel p g t call ts =
    conclude t
      (check_token_identity p g t ts
        <|> check_attributable_binding p t call
        <|> check_proof_enforcement p g t)
      (check_chain fuel p g t)
