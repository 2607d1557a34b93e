-- ===== src/Gate/Chain.antt =====
-- Chain verification: the walk from a token to its root, with fuel for the `while` loop.
use raucle.Prelude.{ℕ, zero, suc, not, Option, none, some, List, [], ◌∷◌, ◌++◌, if◌then◌else◌}
use raucle.Text.{Text, mem_text}
use raucle.Platform.{Platform}
use raucle.Dict.{get}
use raucle.Token.{Capability}
use raucle.Delegation.{Broadening, attenuation_violation}
use raucle.Gate.Defs.{
  Reason, GateDecision, CapabilityGate, deny, deny_at, no_resolver, unresolved_parent,
  untrusted_parent, bad_parent_signature, ancestor_revoked, invalid_attenuation,
}
use raucle.Gate.Identity.{verify_signature}

-- What the walk did: the ids that it passed, and the refusal that ended it, if any.
abbrev pub Walk : Type 0
Walk = List Text × Option GateDecision

-- `while current.parent_id`: an empty id ends the walk as none does.
abbrev pub cited : Option Text → Option Text
cited none = none
cited (some []) = none
cited (some (c ∷ s)) = some (c ∷ s)

abbrev as_refusal : Text → Option Broadening → Option Reason
as_refusal i none = none
as_refusal i (some b) = some (invalid_attenuation i b)

-- The tests of one link: the reason why `parent` is no ancestor to rely on.
unfoldable pub link_refusal : Platform → CapabilityGate → Capability → Capability → Option Reason
link_refusal p g current parent = elim (get parent.key_id g.issuers) [
  | none ↦ some (untrusted_parent parent.token_id)
  | some pem ↦
      if not (verify_signature p parent pem)
      then some (bad_parent_signature parent.token_id)
      else if mem_text parent.token_id g.revoked
      then some (ancestor_revoked parent.token_id)
      else as_refusal parent.token_id (attenuation_violation p current parent)
]

-- The rest of the walk, as a function of the next token and the ids passed.
abbrev pub Onward : Type 0
Onward = Capability → List Text → Option Walk

-- The end of one round: a refusal, or the next round from the parent.
abbrev pub after_link : Onward → Capability → List Text → Capability → Option Reason → Option Walk
after_link onward token chain parent (some why) = some (chain, some (deny_at token chain why))
after_link onward token chain parent none = onward parent (chain ++ parent.token_id ∷ [])

module _ (p : Platform) (g : CapabilityGate) (resolve : Text → Option Capability) where
  abbrev pub after_resolve :
      Onward → Capability → Capability → List Text → Text → Option Capability → Option Walk
  after_resolve onward token current chain i none =
      some (chain, some (deny_at token chain (unresolved_parent i)))
  after_resolve onward token current chain i (some parent) =
      after_link onward token chain parent (link_refusal p g current parent)

  -- One round of `while current.parent_id`.
  abbrev pub round : Onward → Capability → Capability → List Text → Option Text → Option Walk
  round onward token current chain none = some (chain, none)
  round onward token current chain (some i) = after_resolve onward token current chain i (resolve i)

  -- `_verify_ancestor_chain`; `none` means that the fuel ran out.
  unfoldable pub verify_ancestor_chain : ℕ → Capability → Capability → List Text → Option Walk
  verify_ancestor_chain zero token current chain = none
  verify_ancestor_chain (suc fuel) token current chain =
      round (verify_ancestor_chain fuel token) token current chain (cited current.parent_id)

-- `if self._resolver is None`
abbrev pub walk_if :
    ℕ → Platform → CapabilityGate → Capability → Option (Text → Option Capability) → Option Walk
walk_if fuel p g t none = some ([], some (deny t no_resolver))
walk_if fuel p g t (some resolve) = verify_ancestor_chain p g resolve fuel t t []

abbrev pub walk_from : ℕ → Platform → CapabilityGate → Capability → Option Text → Option Walk
walk_from fuel p g t none = some ([], none)
walk_from fuel p g t (some i) = walk_if fuel p g t g.resolver

-- `_check_chain`
unfoldable pub check_chain : ℕ → Platform → CapabilityGate → Capability → Option Walk
check_chain fuel p g t = walk_from fuel p g t t.parent_id
