-- ===== src/Authority/Returns.antt =====
-- The walk up the chain ends (`_verify_ancestor_chain`).
use raucle.Prelude.{◌≡◌, refl, Option, none, some, List, [], ◌∷◌, ◌++◌, ℕ, zero, suc, ◌<◌, arith}
use raucle.Prelude.Int.{ℤ}
use raucle.Text.{Text}
use raucle.Platform.{Platform}
use raucle.Token.{Capability}
use raucle.Gate.{
  Reason, GateDecision, CapabilityGate, Call, link_refusal, Onward, after_link, after_resolve,
  round, cited, walk_if, walk_from, after_walk, conclude, Walk, verify_ancestor_chain, check_chain,
  check,
}
use raucle.Authority.Lineage.{resolved_by}

-- Each resolved parent stands lower than its child.
abbrev pub Descends : CapabilityGate → (Capability → ℕ) → Type 0
Descends g rank =
    (child parent : Capability) (i : Text)
    → cited child.parent_id ≡ some i
    → resolved_by g.resolver i ≡ some parent
    → rank parent < rank child

abbrev Returns {ℓ} : {A : Type ℓ} → Option A → Type ℓ
Returns {A = A} o = (a : A) × (o ≡ some a)

module _ (p : Platform) (g : CapabilityGate) (rank : Capability → ℕ) (down : Descends g rank)
    (resolve : Text → Option Capability) (wired : g.resolver ≡ some resolve) (t : Capability) where
  link-Returns :
      (onward : Onward) (chain : List Text) (parent : Capability) (why : Option Reason)
      → ((ids : List Text) → Returns (onward parent ids))
      → Returns (after_link onward t chain parent why)
  link-Returns onward chain parent none ih = ih (chain ++ parent.token_id ∷ [])
  link-Returns onward chain parent (some why) ih = (_, refl)

  resolve-Returns :
      (onward : Onward) (c : Capability) (chain : List Text) (i : Text) (o : Option Capability)
      → ((parent : Capability) (ids : List Text) → o ≡ some parent → Returns (onward parent ids))
      → Returns (after_resolve p g resolve onward t c chain i o)
  resolve-Returns onward c chain i none ih = (_, refl)
  resolve-Returns onward c chain i (some parent) ih =
      link-Returns onward chain parent (link_refusal p g c parent) (λ ids. ih parent ids refl)

  round-Returns :
      (onward : Onward) (c : Capability) (chain : List Text) (o : Option Text)
      → ((i : Text) (parent : Capability) (ids : List Text)
          → o ≡ some i
          → resolve i ≡ some parent
          → Returns (onward parent ids))
      → Returns (round p g resolve onward t c chain o)
  round-Returns onward c chain none ih = (_, refl)
  round-Returns onward c chain (some i) ih =
      resolve-Returns onward c chain i (resolve i) (λ parent ids e. ih i parent ids refl e)

  walk-Returns :
      (fuel : ℕ) (c : Capability) (chain : List Text)
      → rank c < fuel
      → Returns (verify_ancestor_chain p g resolve fuel t c chain)
  unfolding verify_ancestor_chain
  walk-Returns zero c chain h = absurd (omega arith)
  walk-Returns (suc fuel) c chain h =
      round-Returns (verify_ancestor_chain p g resolve fuel t) c chain (cited c.parent_id)
        (λ i parent ids e k.
          let lower = down c parent i e (rw wired k) in walk-Returns fuel parent ids (omega arith))

module _ (p : Platform) (g : CapabilityGate) (rank : Capability → ℕ) (down : Descends g rank)
    (t : Capability) (fuel : ℕ) (enough : rank t < fuel) where
  walk_if-Returns :
      (r : Option (Text → Option Capability)) → g.resolver ≡ r → Returns (walk_if fuel p g t r)
  walk_if-Returns none e = (_, refl)
  walk_if-Returns (some resolve) e = walk-Returns p g rank down resolve e t fuel t [] enough

  walk_from-Returns : (i : Option Text) → Returns (walk_from fuel p g t i)
  walk_from-Returns none = (_, refl)
  walk_from-Returns (some i) = walk_if-Returns g.resolver refl

  check_chain-Returns : Returns (check_chain fuel p g t)
  unfolding check_chain
  check_chain-Returns = walk_from-Returns t.parent_id

after_walk-Returns : (t : Capability) (w : Option Walk) → Returns w → Returns (after_walk t w)
after_walk-Returns t none (w, e) = cc
after_walk-Returns t (some (chain, none)) h = (_, refl)
after_walk-Returns t (some (chain, some d)) h = (d, refl)

conclude-Returns :
    (t : Capability) (o : Option GateDecision) (w : Option Walk)
    → Returns w
    → Returns (conclude t o w)
conclude-Returns t (some d) w h = (d, refl)
conclude-Returns t none w h = after_walk-Returns t w h

-- The gate decides every call when no chain of parents goes on for ever: if a rank of the tokens falls
-- from a child to each parent that the resolver finds, as many rounds as the rank of the token, and one
-- more, are enough.
pub check-returns :
    (fuel : ℕ) (p : Platform) (g : CapabilityGate) (rank : Capability → ℕ) (t : Capability)
    (call : Call) (ts : ℤ)
    → Descends g rank
    → rank t < fuel
    → (d : GateDecision) × (check fuel p g t call ts ≡ some d)
unfolding check
check-returns fuel p g rank t call ts down enough =
    conclude-Returns t _ (check_chain fuel p g t) (check_chain-Returns p g rank down t fuel enough)
