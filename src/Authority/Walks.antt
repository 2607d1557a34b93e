-- ===== src/Authority/Walks.antt =====
-- The walk up the chain: its refusals, and the decision that stands at its end.
use raucle.Prelude.{
  ◌≡◌, refl, sym, ap, true, false, Option, none, some, List, [], ◌∷◌, ◌++◌, ◌<|>◌, ℕ, zero, suc,
  <|>-eq-none,
}
use raucle.Prelude.Int.{ℤ}
use raucle.Text.{Text}
use raucle.Platform.{Platform}
use raucle.Token.{Capability}
use raucle.Gate.{
  Reason, GateDecision, CapabilityGate, Call, allow, check_token_identity,
  check_attributable_binding, check_proof_enforcement, link_refusal, Onward, after_link,
  after_resolve, round, cited, walk_if, walk_from, Walk, verify_ancestor_chain, check_chain, check,
  conclude,
}
use raucle.Authority.Refusals.{
  Denies, Denies-or, Refuses-Denies, identity-Refuses, binding-Refuses, proof-Denies,
}

abbrev WalkDenies : Option Walk → Type 0
WalkDenies none = Unit
WalkDenies (some (chain, d)) = Denies d

module _ (p : Platform) (g : CapabilityGate) (resolve : Text → Option Capability)
    (t : Capability) where
  link-Denies :
      (onward : Onward) (chain : List Text) (parent : Capability) (why : Option Reason)
      → ((c : Capability) (ids : List Text) → WalkDenies (onward c ids))
      → WalkDenies (after_link onward t chain parent why)
  link-Denies onward chain parent none ih = ih parent (chain ++ parent.token_id ∷ [])
  link-Denies onward chain parent (some why) ih = refl

  resolve-Denies :
      (onward : Onward) (c : Capability) (chain : List Text) (i : Text) (o : Option Capability)
      → ((c : Capability) (ids : List Text) → WalkDenies (onward c ids))
      → WalkDenies (after_resolve p g resolve onward t c chain i o)
  resolve-Denies onward c chain i none ih = refl
  resolve-Denies onward c chain i (some parent) ih =
      link-Denies onward chain parent (link_refusal p g c parent) ih

  round-Denies :
      (onward : Onward) (c : Capability) (chain : List Text) (i : Option Text)
      → ((c : Capability) (ids : List Text) → WalkDenies (onward c ids))
      → WalkDenies (round p g resolve onward t c chain i)
  round-Denies onward c chain none ih = tt
  round-Denies onward c chain (some i) ih = resolve-Denies onward c chain i (resolve i) ih

  walk-Denies :
      (fuel : ℕ) (c : Capability) (chain : List Text)
      → WalkDenies (verify_ancestor_chain p g resolve fuel t c chain)
  unfolding verify_ancestor_chain
  walk-Denies zero c chain = tt
  walk-Denies (suc fuel) c chain =
      round-Denies (verify_ancestor_chain p g resolve fuel t) c chain (cited c.parent_id)
        (walk-Denies fuel)

some-inj : {A : Type 0} (x y : A) → some x ≡ some y → x ≡ y
some-inj x y h = cc

refusal-not_allowed :
    (r d : GateDecision) → r.allowed ≡ false → some r ≡ some d → d.allowed ≡ true → ⊥
refusal-not_allowed r d refused h a = let e = some-inj r d h in cc (ap (λ x. x.allowed) e)

conclude-allowed :
    (t : Capability) (o : Option GateDecision) (w : Option Walk) (d : GateDecision)
    → Denies o
    → WalkDenies w
    → conclude t o w ≡ some d
    → d.allowed ≡ true
    → (o ≡ none) × ((chain : List Text) × (w ≡ some (chain, none)) × (d ≡ allow t chain))
conclude-allowed t (some r) w d refused _ h a = absurd (refusal-not_allowed r d refused h a)
conclude-allowed t none none d _ _ h a = cc
conclude-allowed t none (some (chain, none)) d _ _ h a =
    (refl, (chain, refl, sym (some-inj (allow t chain) d h)))
conclude-allowed t none (some (chain, some r)) d _ refused h a =
    absurd (refusal-not_allowed r d refused h a)

module _ (p : Platform) (g : CapabilityGate) (t : Capability) where
  chain-Denies : (fuel : ℕ) → WalkDenies (check_chain fuel p g t)
  unfolding check_chain
  chain-Denies fuel = from t.parent_id
    where
      walk_if-Denies : (r : Option (Text → Option Capability)) → WalkDenies (walk_if fuel p g t r)
      walk_if-Denies none = refl
      walk_if-Denies (some resolve) = walk-Denies p g resolve t fuel t []

      from : (i : Option Text) → WalkDenies (walk_from fuel p g t i)
      from none = tt
      from (some i) = walk_if-Denies g.resolver

  -- The call is allowed exactly when no stage and no link refuses it.
  pub check-allowed :
      (fuel : ℕ) (call : Call) (ts : ℤ) (d : GateDecision)
      → check fuel p g t call ts ≡ some d
      → d.allowed ≡ true
      → (check_token_identity p g t ts ≡ none)
        × (check_attributable_binding p t call ≡ none)
        × (check_proof_enforcement p g t ≡ none)
        × ((chain : List Text) × (check_chain fuel p g t ≡ some (chain, none))
            × (d ≡ allow t chain))
  unfolding check
  check-allowed fuel call ts d h a =
      let x = check_token_identity p g t ts in
      let y = check_attributable_binding p t call in
      let z = check_proof_enforcement p g t in
      let (stages, rest) =
        conclude-allowed t (x <|> y <|> z) (check_chain fuel p g t) d
          (Denies-or x (y <|> z) (Refuses-Denies false x (identity-Refuses p g t ts)) (
            Denies-or y z (Refuses-Denies true y (binding-Refuses p g t call))
              (proof-Denies p g t)))
          (chain-Denies fuel) h a in
      let (e₀, stages') = <|>-eq-none x (y <|> z) stages in
      let (e₁, e₂) = <|>-eq-none y z stages' in (e₀, e₁, e₂, rest)
