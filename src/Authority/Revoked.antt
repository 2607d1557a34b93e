-- ===== src/Authority/Revoked.antt =====
-- Revocation reaches a token and everything below it (`CapabilityGate.revoke`).
use raucle.Prelude.{◌≡◌, ◌≢◌, true, false, some, List, All, All-map, arith, ℕ}
use raucle.Prelude.Int.{ℤ}
use raucle.Text.{Text, text_eq, text_eq_refl, mem_text}
use raucle.Platform.{Platform}
use raucle.Token.{Capability}
use raucle.Gate.{GateDecision, CapabilityGate, Call, revoke, check}
use raucle.Authority.Grant.{check-allow_sound}
use raucle.Authority.Lineage.{Lineage, root, step, check-allow-Lineage}

not_revoked : (g : CapabilityGate) (i j : Text) → mem_text j (revoke g i).revoked ≡ false → j ≢ i
not_revoked g i j h e =
    let same : text_eq i j ≡ true = rw e (text_eq_refl i) in ground (arith, text_eq_refl i)

Lineage-in_force :
    (p : Platform) (g : CapabilityGate) {t : Capability} {elders : List Capability}
    → Lineage p g t elders
    → All (λ a. mem_text a.token_id g.revoked ≡ false) elders
Lineage-in_force p g (root e) = tt
Lineage-in_force p g (step up line) = (up.in_force, Lineage-in_force p g line)

-- After `revoke(i)` the gate allows no call of a token that is `i` or has `i` among its ancestors.
pub revoke-denies :
    (fuel : ℕ) (p : Platform) (g : CapabilityGate) (i : Text) (t : Capability) (call : Call)
    (ts : ℤ) (d : GateDecision)
    → check fuel p (revoke g i) t call ts ≡ some d
    → d.allowed ≡ true
    → (elders : List Capability) × Lineage p (revoke g i) t elders
      × (t.token_id ≢ i)
      × All (λ a. a.token_id ≢ i) elders
revoke-denies fuel p g i t call ts d h a =
    let (real, _) = check-allow_sound p (revoke g i) t fuel call ts d h a in
    let (elders, line, _) = check-allow-Lineage fuel p (revoke g i) t call ts d h a in
    (
      elders,
      line,
      not_revoked g i t.token_id real.in_force,
      All-map elders (λ x. not_revoked g i x.token_id) (Lineage-in_force p (revoke g i) line),
    )
