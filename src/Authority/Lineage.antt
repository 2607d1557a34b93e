-- ===== src/Authority/Lineage.antt =====
-- The chain that stands behind an allowed call (`_check_chain`, `_verify_ancestor_chain`).
use raucle.Prelude.{
  ◌≡◌, refl, sym, ◌∙◌, ap, true, false, Option, none, some, List, [], ◌∷◌, ◌++◌, arith, ℕ, zero,
  suc,
}
use raucle.Prelude.Int.{ℤ}
use raucle.Text.{Text, mem_text}
use raucle.Platform.{Platform}
use raucle.Dict.{get}
use raucle.Token.{Capability}
use raucle.Delegation.{attenuation_violation}
use raucle.Delegation.Link.{Narrower, violation-Narrower}
use raucle.Gate.{
  Reason, GateDecision, CapabilityGate, Call, verify_signature, link_refusal, Onward, after_link,
  after_resolve, round, cited, walk_if, walk_from, verify_ancestor_chain, check_chain, check,
}
use raucle.Authority.Walks.{check-allowed}

-- What the resolver of the gate finds.
abbrev pub resolved_by : Option (Text → Option Capability) → Text → Option Capability
resolved_by none i = none
resolved_by (some resolve) i = resolve i

-- One step up: the parent that the child cites, found by the resolver, signed by a pinned key, not
-- revoked, and no narrower than the child.
pub record Link (p : Platform) (g : CapabilityGate) (child parent : Capability) : Type 0 where
  pub parent_id : Text
  pub cites : cited child.parent_id ≡ some parent_id
  pub found : resolved_by g.resolver parent_id ≡ some parent
  pub pem : Text
  pub pinned : get parent.key_id g.issuers ≡ some pem
  pub signed : verify_signature p parent pem ≡ true
  pub in_force : mem_text parent.token_id g.revoked ≡ false
  pub narrower : Narrower p child parent

-- The ancestors of a token up to a root, nearest first.
pub data Lineage (p : Platform) (g : CapabilityGate) : Capability → List Capability → Type 0 where
  root : {t : Capability} → cited t.parent_id ≡ none → Lineage p g t []
  step :
      {t a : Capability} {elders : List Capability}
      → Link p g t a
      → Lineage p g a elders
      → Lineage p g t (a ∷ elders)

abbrev pub token_ids : List Capability → List Text
token_ids [] = []
token_ids (a ∷ elders) = a.token_id ∷ token_ids elders

append-cons : (xs : List Text) (y : Text) (ys : List Text) → (xs ++ y ∷ []) ++ ys ≡ xs ++ y ∷ ys
append-cons [] y ys = refl
append-cons (x ∷ xs) y ys = ap (λ l. x ∷ l) (append-cons xs y ys)

append-nil : (xs : List Text) → xs ++ [] ≡ xs
append-nil [] = refl
append-nil (x ∷ xs) = ap (λ l. x ∷ l) (append-nil xs)

-- A walk that refused nothing went from `t` to a root, and appended the ids of the ancestors.
abbrev Climbed : Platform → CapabilityGate → Capability → List Text → List Text → Type 0
Climbed p g t chain ids =
    (elders : List Capability) × Lineage p g t elders × (ids ≡ chain ++ token_ids elders)

-- The facts that the tests of one link establish.
link_refusal-none :
    (p : Platform) (g : CapabilityGate) (child parent : Capability)
    → link_refusal p g child parent ≡ none
    → (pem : Text) × (get parent.key_id g.issuers ≡ some pem)
      × (verify_signature p parent pem ≡ true)
      × (mem_text parent.token_id g.revoked ≡ false)
      × (attenuation_violation p child parent ≡ none)
unfolding link_refusal
link_refusal-none p g child parent h = ground arith

module _ (p : Platform) (g : CapabilityGate) (resolve : Text → Option Capability)
    (wired : g.resolver ≡ some resolve) (t : Capability) where
  abbrev Rest : Onward → Type 0
  Rest onward =
      (c : Capability) (chain ids : List Text)
      → onward c chain ≡ some (ids, none)
      → Climbed p g c chain ids

  after_link-Climbed :
      (onward : Onward) (c parent : Capability) (i : Text) (chain ids : List Text)
      (o : Option Reason)
      → cited c.parent_id ≡ some i
      → resolve i ≡ some parent
      → link_refusal p g c parent ≡ o
      → Rest onward
      → after_link onward t chain parent o ≡ some (ids, none)
      → Climbed p g c chain ids
  after_link-Climbed onward c parent i chain ids (some why) cites found e ih h = cc
  after_link-Climbed onward c parent i chain ids none cites found e ih h =
      let (pem, pinned, signed, in_force, within) = link_refusal-none p g c parent e in
      let (elders, line, ends) = ih parent (chain ++ parent.token_id ∷ []) ids h in
      let link : Link p g c parent = record {
        parent_id = i;
        cites = cites;
        found = rw wired found;
        pem = pem;
        pinned = pinned;
        signed = signed;
        in_force = in_force;
        narrower = violation-Narrower p c parent within;
      } in
      (parent ∷ elders, step link line, ends ∙ append-cons chain parent.token_id (token_ids elders))

  after_resolve-Climbed :
      (onward : Onward) (c : Capability) (i : Text) (chain ids : List Text) (o : Option Capability)
      → cited c.parent_id ≡ some i
      → resolve i ≡ o
      → Rest onward
      → after_resolve p g resolve onward t c chain i o ≡ some (ids, none)
      → Climbed p g c chain ids
  after_resolve-Climbed onward c i chain ids none cites e ih h = cc
  after_resolve-Climbed onward c i chain ids (some parent) cites e ih h =
      after_link-Climbed onward c parent i chain ids (link_refusal p g c parent) cites e refl ih h

  round-Climbed :
      (onward : Onward) (c : Capability) (chain ids : List Text) (o : Option Text)
      → cited c.parent_id ≡ o
      → Rest onward
      → round p g resolve onward t c chain o ≡ some (ids, none)
      → Climbed p g c chain ids
  round-Climbed onward c chain ids none e ih h =
      let ends : chain ≡ ids = cc in ([], root e, sym ends ∙ sym (append-nil chain))
  round-Climbed onward c chain ids (some i) e ih h =
      after_resolve-Climbed onward c i chain ids (resolve i) e refl ih h

  walk-Climbed : (fuel : ℕ) → Rest (verify_ancestor_chain p g resolve fuel t)
  unfolding verify_ancestor_chain
  walk-Climbed zero c chain ids h = cc
  walk-Climbed (suc fuel) c chain ids h =
      round-Climbed (verify_ancestor_chain p g resolve fuel t) c chain ids (cited c.parent_id) refl
        (walk-Climbed fuel) h

module _ (fuel : ℕ) (p : Platform) (g : CapabilityGate) (t : Capability) (ids : List Text) where
  walk_if-Climbed :
      (r : Option (Text → Option Capability))
      → g.resolver ≡ r
      → walk_if fuel p g t r ≡ some (ids, none)
      → Climbed p g t [] ids
  walk_if-Climbed none e h = cc
  walk_if-Climbed (some resolve) e h = walk-Climbed p g resolve e t fuel t [] ids h

  walk_from-Climbed :
      (i : Option Text)
      → t.parent_id ≡ i
      → walk_from fuel p g t i ≡ some (ids, none)
      → Climbed p g t [] ids
  walk_from-Climbed none e h = let ends : [] ≡ ids = cc in ([], root (rw e refl), sym ends)
  walk_from-Climbed (some i) e h = walk_if-Climbed g.resolver refl h

  check_chain-Climbed : check_chain fuel p g t ≡ some (ids, none) → Climbed p g t [] ids
  unfolding check_chain
  check_chain-Climbed h = walk_from-Climbed t.parent_id refl h

-- Behind an allowed call stands a chain of tokens from the presented one to a root, each found by the
-- resolver, signed by a pinned key, not revoked and no narrower than its child; the decision lists
-- their ids, nearest first.
pub check-allow-Lineage :
    (fuel : ℕ) (p : Platform) (g : CapabilityGate) (t : Capability) (call : Call) (ts : ℤ)
    (d : GateDecision)
    → check fuel p g t call ts ≡ some d
    → d.allowed ≡ true
    → (elders : List Capability) × Lineage p g t elders × (d.chain ≡ token_ids elders)
check-allow-Lineage fuel p g t call ts d h a =
    let (_, _, _, (ids, walked, e)) = check-allowed p g t fuel call ts d h a in
    let (elders, line, ends) = check_chain-Climbed fuel p g t ids walked in
    (elders, line, ap (λ x. x.chain) e ∙ ends)
