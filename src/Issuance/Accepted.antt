-- ===== src/Issuance/Accepted.antt =====
-- A gate that pins the issuer's key accepts a fresh token (raucle/capability.py, `mint` and `check`).
use mathlib.Core.Path.{subst}
use raucle.Prelude.{◌≡◌, refl, sym, ◌∙◌, Bool, true, false, none, some, [], arith, ℕ}
use raucle.Prelude.Int.{ℤ, ◌≤ℤ◌, ◌<ℤ◌}
use raucle.Text.{Text, text_eq, text_eq_refl, mem_text}
use raucle.Platform.{Platform, Bytes}
use raucle.Dict.{get}
use raucle.Result.{ok, ok-injective}
use raucle.Token.{Capability, body, signed_material, token_id_of}
use raucle.Issuer.{CapabilityIssuer, MintRequest, finish, mint}
use raucle.Gate.{
  CapabilityGate, off, Call, allow, verify_signature, check_token_identity, check_signature,
  check_hybrid_signature, check_token_id, check_revocation, check_time_bounds,
  check_attributable_binding, check_proof_enforcement, check_chain, check,
}
use raucle.Issuance.Seals.{mint-Minting}

-- The signature scheme verifies what the issuer signs under a key, and base64 round-trips.
pub record Sound (p : Platform) (s : CapabilityIssuer) (pem : Text) : Type 0 where
  pub verifies : (m : Bytes) → p.verify pem (s.sign m) m ≡ true
  pub decodes : (b : Bytes) → p.b64d (p.b64 b) ≡ some b

-- The gate pins the key, has revoked nothing under the id of the token, and asks for no proof.
pub record Admits (g : CapabilityGate) (s : CapabilityIssuer) (pem : Text) (t : Capability)
    : Type 0 where
  pub pinned : get s.key_id g.issuers ≡ some pem
  pub in_force : mem_text t.token_id g.revoked ≡ false
  pub no_proof : g.proof_mode ≡ off

-- A root token that the issuer has sealed.
record Fresh (p : Platform) (s : CapabilityIssuer) (t : Capability) : Type 0 where
  material : Bytes
  made : signed_material p t ≡ ok material
  id : t.token_id ≡ token_id_of p material
  signature : t.signature ≡ p.b64 (s.sign material)
  key : t.key_id ≡ s.key_id
  root : t.parent_id ≡ none
  plain : t.pq_key_id ≡ none

alone :
    (p : Platform) (s : CapabilityIssuer) (b : Bool) (t u : Capability)
    → b ≡ false
    → finish p s b t ≡ ok u
    → t ≡ u
alone p s true t u e h = cc
alone p s false t u e h = ok-injective h

mint-Fresh :
    (p : Platform) (s : CapabilityIssuer) (now : ℤ) (q : MintRequest) (t : Capability)
    → q.quantum ≡ false
    → mint p s now q ≡ ok t
    → Fresh p s t
unfolding signed_material body
mint-Fresh p s now q t classical h =
    let m = mint-Minting p s now q t h in
    subst (Fresh p s) (sym m.seals.made ∙ alone p s q.quantum m.sealed t classical m.ends) (record {
      material = m.seals.material;
      made = m.seals.hashed;
      id = refl;
      signature = refl;
      key = refl;
      root = refl;
      plain = refl;
    })

module _ (p : Platform) (s : CapabilityIssuer) (pem : Text) (g : CapabilityGate) (t : Capability)
    (sound : Sound p s pem) (admits : Admits g s pem t) (fresh : Fresh p s t) where
  fresh-verifies : verify_signature p t pem ≡ true
  unfolding verify_signature
  fresh-verifies =
      rw (verify_signature, fresh.made, fresh.signature, sound.decodes (s.sign fresh.material))
        (sound.verifies fresh.material)

  fresh-signature : check_signature p g t ≡ none
  unfolding check_signature
  fresh-signature =
      let found : get t.key_id g.issuers ≡ some pem =
        subst (λ k. get k g.issuers ≡ some pem) (sym fresh.key) admits.pinned in
      rw (check_signature, found, fresh-verifies) refl

  fresh-token_id : check_token_id p t ≡ none
  unfolding check_token_id
  fresh-token_id =
      let i = token_id_of p fresh.material in
      let same : text_eq i t.token_id ≡ true =
        subst (λ x. text_eq i x ≡ true) (sym fresh.id) (text_eq_refl i) in
      rw (check_token_id, fresh.made, same) refl

  fresh-revocation : check_revocation g t ≡ none
  unfolding check_revocation
  fresh-revocation = rw (admits.in_force, fresh.root) refl

  fresh-hybrid : check_hybrid_signature p g t ≡ none
  unfolding check_hybrid_signature
  fresh-hybrid = rw (fresh.plain) refl

  fresh-time : (ts : ℤ) → t.not_before ≤ℤ ts → ts <ℤ t.expires_at → check_time_bounds t ts ≡ none
  unfolding check_time_bounds
  fresh-time ts h k = ground arith

  fresh-identity :
      (ts : ℤ) → t.not_before ≤ℤ ts → ts <ℤ t.expires_at → check_token_identity p g t ts ≡ none
  unfolding check_token_identity
  fresh-identity ts h k =
      rw (fresh-signature, fresh-hybrid, fresh-token_id, fresh-revocation, fresh-time ts h k) refl

  fresh-allowed :
      (fuel : ℕ) (call : Call) (ts : ℤ)
      → t.not_before ≤ℤ ts
      → ts <ℤ t.expires_at
      → check_attributable_binding p t call ≡ none
      → check fuel p g t call ts ≡ some (allow t [])
  unfolding check check_proof_enforcement check_chain
  fresh-allowed fuel call ts h k inside =
      rw (fresh-identity ts h k, inside, admits.no_proof, fresh.root) refl

-- A gate that pins the key of the issuer, has its proof mode off and has not revoked the token allows
-- every call inside a token that `mint` made without a second signature, in the token's window. It is
-- required of the signature scheme and of base64 that they take back what they made.
pub mint-accepted :
    (fuel : ℕ) (p : Platform) (s : CapabilityIssuer) (pem : Text) (now : ℤ) (q : MintRequest)
    (t : Capability) (g : CapabilityGate) (call : Call) (ts : ℤ)
    → Sound p s pem
    → Admits g s pem t
    → q.quantum ≡ false
    → mint p s now q ≡ ok t
    → t.not_before ≤ℤ ts
    → ts <ℤ t.expires_at
    → check_attributable_binding p t call ≡ none
    → check fuel p g t call ts ≡ some (allow t [])
mint-accepted fuel p s pem now q t g call ts sound admits classical h =
    fresh-allowed p s pem g t sound admits (mint-Fresh p s now q t classical h) fuel call ts
