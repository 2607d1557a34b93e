-- ===== src/Authority/Inherited.antt =====
-- A call that the gate allows is inside every ancestor of the token.
use raucle.Prelude.{◌≡◌, sym, ◌∙◌, true, none, some, List, All, arith, ℕ}
use raucle.Prelude.Int.{ℤ, ◌≤ℤ◌, ◌<ℤ◌}
use raucle.Text.{Text}
use raucle.Json.{Fields}
use raucle.Platform.{Platform}
use raucle.Constraints.{check_constraints, HasPlainPrefixes}
use raucle.Token.{Capability, in_scope}
use raucle.Token.Scope.{in_scope_refl, in_scope_trans}
use raucle.Delegation.Link.{link-admits}
use raucle.Gate.{GateDecision, CapabilityGate, Call, check}
use raucle.Authority.Grant.{check-allow_sound}
use raucle.Authority.Lineage.{Link, Lineage, root, step, resolved_by, check-allow-Lineage}

-- No token that the resolver can find has a file URI among its prefixes.
abbrev pub HasPlainTokens : CapabilityGate → Type 0
HasPlainTokens g =
    (i : Text) (a : Capability) → resolved_by g.resolver i ≡ some a → HasPlainPrefixes a.constraints

-- The token covers an agent, a tool, a time and arguments.
pub record Covers (p : Platform) (a : Capability) (caller name : Text) (ts : ℤ) (given : Fields)
    : Type 0 where
  pub agent : in_scope a.agent_id caller ≡ true
  pub tool : a.tool ≡ name
  pub started : a.not_before ≤ℤ ts
  pub alive : ts <ℤ a.expires_at
  pub args : check_constraints p a.constraints given ≡ none

≤ℤ_trans : (a b c : ℤ) → a ≤ℤ b → b ≤ℤ c → a ≤ℤ c
≤ℤ_trans a b c h k = omega arith

<ℤ_trans : (a b c : ℤ) → a <ℤ b → b ≤ℤ c → a <ℤ c
<ℤ_trans a b c h k = omega arith

module _ (p : Platform) (g : CapabilityGate) (agent_id tool : Text) (ts : ℤ) (args : Fields) where
  parent-Covers :
      (child parent : Capability)
      → HasPlainTokens g
      → Link p g child parent
      → Covers p child agent_id tool ts args
      → Covers p parent agent_id tool ts args
  parent-Covers child parent plain up h = record {
    agent = in_scope_trans parent.agent_id child.agent_id agent_id up.narrower.scope h.agent;
    tool = sym up.narrower.tool ∙ h.tool;
    started = ≤ℤ_trans parent.not_before child.not_before ts up.narrower.start h.started;
    alive = <ℤ_trans ts child.expires_at parent.expires_at h.alive up.narrower.expiry;
    args =
        link-admits p child.constraints parent.constraints args (plain up.parent_id parent up.found)
          up.narrower.constraints h.args;
  }

  Lineage-Covers :
      {t : Capability} {elders : List Capability}
      → HasPlainTokens g
      → Lineage p g t elders
      → Covers p t agent_id tool ts args
      → All (λ a. Covers p a agent_id tool ts args) elders
  Lineage-Covers plain (root e) h = tt
  Lineage-Covers plain (step up line) h =
      let k = parent-Covers _ _ plain up h in (k, Lineage-Covers plain line k)

-- An allowed call is inside every token of the chain behind the presented one: each ancestor covers the
-- token's agent, the called tool, the time of the call and the arguments of the call. It is required
-- that no token that the resolver finds has a file URI among its prefixes.
pub check-allow_inherited :
    (fuel : ℕ) (p : Platform) (g : CapabilityGate) (t : Capability) (call : Call) (ts : ℤ)
    (d : GateDecision)
    → HasPlainTokens g
    → check fuel p g t call ts ≡ some d
    → d.allowed ≡ true
    → (elders : List Capability) × Lineage p g t elders
      × All (λ a. Covers p a t.agent_id call.tool ts call.args) elders
check-allow_inherited fuel p g t call ts d plain h a =
    let (real, within) = check-allow_sound p g t fuel call ts d h a in
    let (elders, line, _) = check-allow-Lineage fuel p g t call ts d h a in
    let own : Covers p t t.agent_id call.tool ts call.args = record {
      agent = in_scope_refl t.agent_id;
      tool = within.tool;
      started = real.started;
      alive = real.alive;
      args = within.args;
    } in
    (elders, line, Lineage-Covers p g t.agent_id call.tool ts call.args plain line own)
