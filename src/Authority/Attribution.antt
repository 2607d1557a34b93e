-- ===== src/Authority/Attribution.antt =====
-- Which refusals the gate puts down to the caller (`GateDecision.attributable`).
use raucle.Prelude.{
  ◌≡◌, refl, ap, ◌⊎◌, true, false, Option, none, some, List, [], ◌∷◌, ◌++◌, ◌<|>◌, ℕ, zero, suc,
  inl, inr,
}
use raucle.Prelude.Int.{ℤ}
use raucle.Text.{Text}
use raucle.Platform.{Platform}
use raucle.Token.{Capability}
use raucle.Gate.{
  Reason, GateDecision, CapabilityGate, Call, allow, check_token_identity,
  check_attributable_binding, check_proof_enforcement, link_refusal, Onward, after_link,
  after_resolve, round, cited, walk_if, walk_from, Walk, verify_ancestor_chain, check_chain, check,
  conclude,
}
use raucle.Authority.Refusals.{Refuses, identity-Refuses, binding-Refuses}
use raucle.Authority.Grant.{Authentic, identity-Authentic}

-- No refusal, or one that is put down to nobody.
abbrev Blameless : Option Walk → Type 0
Blameless none = Unit
Blameless (some (chain, none)) = Unit
Blameless (some (chain, some d)) = d.attributable ≡ false

module _ (p : Platform) (g : CapabilityGate) (resolve : Text → Option Capability)
    (t : Capability) where
  link-Blameless :
      (onward : Onward) (chain : List Text) (parent : Capability) (why : Option Reason)
      → ((c : Capability) (ids : List Text) → Blameless (onward c ids))
      → Blameless (after_link onward t chain parent why)
  link-Blameless onward chain parent none ih = ih parent (chain ++ parent.token_id ∷ [])
  link-Blameless onward chain parent (some why) ih = refl

  resolve-Blameless :
      (onward : Onward) (c : Capability) (chain : List Text) (i : Text) (o : Option Capability)
      → ((c : Capability) (ids : List Text) → Blameless (onward c ids))
      → Blameless (after_resolve p g resolve onward t c chain i o)
  resolve-Blameless onward c chain i none ih = refl
  resolve-Blameless onward c chain i (some parent) ih =
      link-Blameless onward chain parent (link_refusal p g c parent) ih

  round-Blameless :
      (onward : Onward) (c : Capability) (chain : List Text) (i : Option Text)
      → ((c : Capability) (ids : List Text) → Blameless (onward c ids))
      → Blameless (round p g resolve onward t c chain i)
  round-Blameless onward c chain none ih = tt
  round-Blameless onward c chain (some i) ih = resolve-Blameless onward c chain i (resolve i) ih

  walk-Blameless :
      (fuel : ℕ) (c : Capability) (chain : List Text)
      → Blameless (verify_ancestor_chain p g resolve fuel t c chain)
  unfolding verify_ancestor_chain
  walk-Blameless zero c chain = tt
  walk-Blameless (suc fuel) c chain =
      round-Blameless (verify_ancestor_chain p g resolve fuel t) c chain (cited c.parent_id)
        (walk-Blameless fuel)

chain-Blameless :
    (fuel : ℕ) (p : Platform) (g : CapabilityGate) (t : Capability)
    → Blameless (check_chain fuel p g t)
unfolding check_chain
chain-Blameless fuel p g t = from t.parent_id
  where
    walk_if-Blameless : (r : Option (Text → Option Capability)) → Blameless (walk_if fuel p g t r)
    walk_if-Blameless none = refl
    walk_if-Blameless (some resolve) = walk-Blameless p g resolve t fuel t []

    from : (i : Option Text) → Blameless (walk_from fuel p g t i)
    from none = tt
    from (some i) = walk_if-Blameless g.resolver

conclude-blamed :
    (t : Capability) (x y z : Option GateDecision) (w : Option Walk) (d : GateDecision)
    → Refuses false x
    → Blameless w
    → conclude t (x <|> y <|> z) w ≡ some d
    → d.attributable ≡ true
    → (x ≡ none) × ((y ≡ some d) ⊎ ((y ≡ none) × (z ≡ some d)))
conclude-blamed t (some r) y z w d unmarked _ h a =
    let e : r ≡ d = cc in cc (unmarked.1, ap (λ v. v.attributable) e)
conclude-blamed t none (some r) z w d _ _ h a = (refl, inl h)
conclude-blamed t none none (some r) w d _ _ h a = (refl, inr (refl, h))
conclude-blamed t none none none none d _ _ h a = cc
conclude-blamed t none none none (some (chain, none)) d _ _ h a =
    let e : allow t chain ≡ d = cc in cc (ap (λ v. v.attributable) e)
conclude-blamed t none none none (some (chain, some r)) d _ unmarked h a =
    let e : r ≡ d = cc in cc (unmarked, ap (λ v. v.attributable) e)

-- The gate puts a refusal down to the caller only after the token has authenticated, and only for what
-- the call asks or for the proof that the token cites.
pub check-blame-Authentic :
    (fuel : ℕ) (p : Platform) (g : CapabilityGate) (t : Capability) (call : Call) (ts : ℤ)
    (d : GateDecision)
    → check fuel p g t call ts ≡ some d
    → d.attributable ≡ true
    → Authentic p g t ts
      × ((check_attributable_binding p t call ≡ some d)
          ⊎ ((check_attributable_binding p t call ≡ none)
              × (check_proof_enforcement p g t ≡ some d)))
unfolding check
check-blame-Authentic fuel p g t call ts d h a =
    let (e, why) =
      conclude-blamed t (check_token_identity p g t ts) (check_attributable_binding p t call)
        (check_proof_enforcement p g t) (check_chain fuel p g t) d (identity-Refuses p g t ts)
        (chain-Blameless fuel p g t) h a in
    (identity-Authentic p g t ts e, why)

-- A call with an authentic token that asks for more than the token gives is refused, and the refusal is
-- put down to the caller.
pub check-misuse_blamed :
    (fuel : ℕ) (p : Platform) (g : CapabilityGate) (t : Capability) (call : Call) (ts : ℤ)
    (d : GateDecision)
    → check_token_identity p g t ts ≡ none
    → check_attributable_binding p t call ≡ some d
    → (check fuel p g t call ts ≡ some d) × (d.allowed ≡ false) × (d.attributable ≡ true)
unfolding check
check-misuse_blamed fuel p g t call ts d real misused =
    let marked : Refuses true (some d) = rw misused at (binding-Refuses p g t call) in
    (rw (real, misused) refl, marked.0, marked.1)
