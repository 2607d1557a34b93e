-- ===== src/Issuance/Bound.antt =====
-- The policy proof that a strict issuer binds into a token (`mint`, `_bind_proof_hashes`).
use raucle.Prelude.{◌≡◌, refl, ◌∙◌, ap, Bool, true, false, Option, none, some, arith}
use raucle.Prelude.Int.{ℤ}
use raucle.Text.{Text}
use raucle.Platform.{Platform}
use raucle.Result.{ok}
use raucle.Token.{Capability}
use raucle.Issuer.{
  ProofResult, CapabilityIssuer, MintRequest, is_proven, strict_mint, bind_proof_hashes, mint,
}
use raucle.Issuance.Seals.{Minting, mint-Minting}
use raucle.Issuance.Minted.{finished}

-- The token carries the three hashes of a proven result.
pub record Carries (r : ProofResult) (t : Capability) : Type 0 where
  pub proven : is_proven r ≡ true
  pub proof : t.policy_proof_hash ≡ some r.hash
  pub grammar : t.grammar_hash ≡ some r.grammar_hash
  pub policy : t.policy_hash ≡ some r.policy_hash

bound-hashes :
    (q : MintRequest) (r : ProofResult) (h : Option Text × Option Text × Option Text)
    → q.proof_result ≡ some r
    → bind_proof_hashes q ≡ ok h
    → (is_proven r ≡ true) × (h ≡ (some r.hash, some r.grammar_hash, some r.policy_hash))
unfolding bind_proof_hashes
bound-hashes q r h e k = ground arith

given : (o : Option ProofResult) → strict_mint true o ≡ true → (r : ProofResult) × (o ≡ some r)
given none h = cc
given (some r) h = (r, refl)

carried :
    (p : Platform) (s : CapabilityIssuer) (now : ℤ) (q : MintRequest) (t : Capability)
    (r : ProofResult)
    → q.proof_result ≡ some r
    → Minting p s now q t
    → Carries r t
carried p s now q t r e m =
    let (proven, same) = bound-hashes q r m.hashes e m.binds in
    let (_, _, ends) = finished p s q.quantum m.sealed t m.ends in
    let whole = m.seals.made in
    record {
      proven = proven;
      proof =
          ap (λ x. x.policy_proof_hash) ends
          ∙ ap (λ x. x.policy_proof_hash) whole
          ∙ ap (λ h. h.0) same;
      grammar = ap (λ x. x.grammar_hash) ends ∙ ap (λ x. x.grammar_hash) whole ∙ ap (λ h. h.1) same;
      policy = ap (λ x. x.policy_hash) ends ∙ ap (λ x. x.policy_hash) whole ∙ ap (λ h. h.2) same;
    }

-- An issuer in strict mode mints a token only with a proven result, and the token carries the hash of
-- the proof, of its grammar and of its policy.
pub mint-Carries :
    (p : Platform) (s : CapabilityIssuer) (now : ℤ) (q : MintRequest) (t : Capability)
    → s.require_proof ≡ true
    → mint p s now q ≡ ok t
    → (r : ProofResult) × (q.proof_result ≡ some r) × Carries r t
mint-Carries p s now q t mode h =
    let m = mint-Minting p s now q t h in
    let (r, e) = given q.proof_result (strict_here s.require_proof mode m.strict) in
    (r, e, carried p s now q t r e m)
  where
    strict_here :
        (b : Bool)
        → b ≡ true
        → strict_mint b q.proof_result ≡ true
        → strict_mint true q.proof_result ≡ true
    strict_here true e k = k
    strict_here false e k = cc
