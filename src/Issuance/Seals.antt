-- ===== src/Issuance/Seals.antt =====
-- The steps of `mint` and the seal of a token (raucle/capability.py).
use raucle.Prelude.{◌≡◌, sym, true, Option, if◌then◌else◌}
use raucle.Prelude.Int.{ℤ}
use raucle.Text.{Text, is_empty}
use raucle.Platform.{Platform, Bytes}
use raucle.Result.{ok, >>=-eq-ok, require-eq-ok, ok-injective}
use raucle.Constraints.{Constraints, decode_constraints, normalise_constraints}
use raucle.Token.{Capability, signed_material, token_id_of, is_agent_id, is_tool, is_principal}
use raucle.Issuer.{
  CapabilityIssuer, MintRequest, validate_intent, validate_ttl, strict_mint, bind_proof_hashes,
  seal, draft, finish, mint,
}

-- The token is the draft with an id and a signature made from the body of the draft.
pub record Sealed (p : Platform) (s : CapabilityIssuer) (draft t : Capability) : Type 0 where
  pub material : Bytes
  pub hashed : signed_material p draft ≡ ok material
  pub made :
      t ≡ record draft { token_id = token_id_of p material; signature = p.b64 (s.sign material) }

pub seal-Sealed :
    (p : Platform) (s : CapabilityIssuer) (draft t : Capability)
    → seal p s draft ≡ ok t
    → Sealed p s draft t
unfolding seal
seal-Sealed p s draft t h =
    let (m, e, k) = >>=-eq-ok (signed_material p draft) _ h in
    record { material = m; hashed = e; made = sym (ok-injective k) }

-- The steps that `mint` took.
pub record Minting (p : Platform) (s : CapabilityIssuer) (now : ℤ) (q : MintRequest)
    (t : Capability) : Type 0 where
  pub agent : is_agent_id q.agent_id ≡ true
  pub tool : is_tool q.tool ≡ true
  pub user : (if is_empty q.acting_for then true else is_principal q.acting_for) ≡ true
  pub intended : validate_intent q.intent ≡ ok tt
  pub ttl : ℤ
  pub lives : validate_ttl q.ttl_seconds ≡ ok ttl
  pub strict : strict_mint s.require_proof q.proof_result ≡ true
  pub hashes : Option Text × Option Text × Option Text
  pub binds : bind_proof_hashes q ≡ ok hashes
  pub decoded : Constraints
  pub decodes : decode_constraints q.constraints ≡ ok decoded
  pub constraints : Constraints
  pub normal : normalise_constraints p decoded ≡ ok constraints
  pub sealed : Capability
  pub seals : Sealed p s (draft s now q ttl hashes constraints) sealed
  pub ends : finish p s q.quantum sealed ≡ ok t

pub mint-Minting :
    (p : Platform) (s : CapabilityIssuer) (now : ℤ) (q : MintRequest) (t : Capability)
    → mint p s now q ≡ ok t
    → Minting p s now q t
unfolding mint
mint-Minting p s now q t h =
    let (agent, h₁) = require-eq-ok (is_agent_id q.agent_id) _ _ h in
    let (tool, h₂) = require-eq-ok (is_tool q.tool) _ _ h₁ in
    let (_, intended, h₃) = >>=-eq-ok (validate_intent q.intent) _ h₂ in
    let (user, h₄) =
      require-eq-ok (if is_empty q.acting_for then true else is_principal q.acting_for) _ _ h₃ in
    let (ttl, lives, h₅) = >>=-eq-ok (validate_ttl q.ttl_seconds) _ h₄ in
    let (strict, h₆) = require-eq-ok (strict_mint s.require_proof q.proof_result) _ _ h₅ in
    let (hashes, binds, h₇) = >>=-eq-ok (bind_proof_hashes q) _ h₆ in
    let (decoded, decodes, h₈) = >>=-eq-ok (decode_constraints q.constraints) _ h₇ in
    let (constraints, normal, h₉) = >>=-eq-ok (normalise_constraints p decoded) _ h₈ in
    let (sealed, seals, ends) =
      >>=-eq-ok (seal p s (draft s now q ttl hashes constraints)) (finish p s q.quantum) h₉ in
    record {
      agent = agent;
      tool = tool;
      user = user;
      intended = intended;
      ttl = ttl;
      lives = lives;
      strict = strict;
      hashes = hashes;
      binds = binds;
      decoded = decoded;
      decodes = decodes;
      constraints = constraints;
      normal = normal;
      sealed = sealed;
      seals = seal-Sealed p s (draft s now q ttl hashes constraints) sealed seals;
      ends = ends;
    }
