-- ===== src/Issuance/Minted.antt =====
-- A token that `mint` returns is well formed, and a gate that pins the issuer's key accepts it.
use mathlib.Core.Path.{subst}
use raucle.Prelude.{◌≡◌, refl, sym, Bool, true, false, Option, none, some, arith, if◌then◌else◌}
use raucle.Prelude.Int.{ℤ, pos, ◌≤ℤ◌, ◌<ℤ◌, ◌+ℤ◌}
use raucle.Text.{Text, is_empty}
use raucle.Json.{Scalar, null, bool, int, float, str}
use raucle.Platform.{Platform, Bytes}
use raucle.Result.{Result, ok, err, ◌>>=◌, >>=-eq-ok, ok-injective, no_pq_key}
use raucle.Constraints.{Constraints, decode_constraints, normalise_constraints}
use raucle.Token.{
  Capability, body, signed_material, token_id_of, is_agent_id, is_tool, is_principal,
}
use raucle.Issuer.{
  CapabilityIssuer, MintRequest, validate_ttl, max_ttl_seconds, seal_hybrid, finish, mint,
}
use raucle.Issuance.Seals.{mint-Minting}

-- The request is well formed.
pub record Wellformed (p : Platform) (now : ℤ) (q : MintRequest) (t : Capability) : Type 0 where
  pub agent : is_agent_id t.agent_id ≡ true
  pub tool : is_tool t.tool ≡ true
  pub user : is_empty t.acting_for ≡ false → is_principal t.acting_for ≡ true
  pub ttl : ℤ
  pub positive : pos 0 <ℤ ttl
  pub bounded : ttl ≤ℤ max_ttl_seconds
  pub expiry : t.expires_at ≡ now +ℤ ttl
  pub is_root : t.parent_id ≡ none
  pub decoded : Constraints
  pub decodes : decode_constraints q.constraints ≡ ok decoded
  pub normal : normalise_constraints p decoded ≡ ok t.constraints
  pub material : Bytes
  pub hashed : signed_material p t ≡ ok material
  pub id : t.token_id ≡ token_id_of p material

ttl-bounds : (v : Scalar) (n : ℤ) → validate_ttl v ≡ ok n → (pos 0 <ℤ n) × (n ≤ℤ max_ttl_seconds)
unfolding validate_ttl
ttl-bounds (int m) n h = ground arith
ttl-bounds null n h = cc
ttl-bounds (bool b) n h = cc
ttl-bounds (float x) n h = cc
ttl-bounds (str s) n h = cc

user-principal :
    (u : Text)
    → (if is_empty u then true else is_principal u) ≡ true
    → is_empty u ≡ false
    → is_principal u ≡ true
user-principal u h named = ground arith

hybrid-made :
    (p : Platform) (s : CapabilityIssuer) (t u : Capability)
    → seal_hybrid p s t ≡ ok u
    → (k : Option Text) × (g : Option Text) × (u ≡ record t { pq_key_id = k; pq_signature = g })
unfolding seal_hybrid
hybrid-made p s t u h = with_key s.pq_sign h
  where
    with_key :
        (o : Option (Bytes → Bytes))
        → elim o as (λ _. Result Capability) [
          | none ↦ err no_pq_key
          | some pq ↦ (do
            m ← signed_material p t
            ok (record t { pq_key_id = some s.pq_key_id; pq_signature = some (p.b64 (pq m)) }))
        ]
          ≡ ok u
        → (k : Option Text) × (g : Option Text) × (u ≡ record t { pq_key_id = k; pq_signature = g })
    with_key none e = cc
    with_key (some pq) e =
        let (m, _, k) = >>=-eq-ok (signed_material p t) _ e in (_, _, sym (ok-injective k))

-- The result of `mint`, with the second signature or without.
pub finished :
    (p : Platform) (s : CapabilityIssuer) (b : Bool) (t u : Capability)
    → finish p s b t ≡ ok u
    → (k : Option Text) × (g : Option Text) × (u ≡ record t { pq_key_id = k; pq_signature = g })
finished p s true t u h = hybrid-made p s t u h
finished p s false t u h = (t.pq_key_id, t.pq_signature, sym (ok-injective h))

Wellformed-hybrid :
    (p : Platform) (now : ℤ) (q : MintRequest) (t : Capability) (k g : Option Text)
    → Wellformed p now q t
    → Wellformed p now q (record t { pq_key_id = k; pq_signature = g })
unfolding signed_material body
Wellformed-hybrid p now q t k g w = record {
  agent = w.agent;
  tool = w.tool;
  user = w.user;
  ttl = w.ttl;
  positive = w.positive;
  bounded = w.bounded;
  expiry = w.expiry;
  is_root = w.is_root;
  decoded = w.decoded;
  decodes = w.decodes;
  normal = w.normal;
  material = w.material;
  hashed = w.hashed;
  id = w.id;
}

-- A token that `mint` returns is well formed: its agent, tool and user match their patterns, it lives for
-- at most 366 days, it has no parent, its constraints are the normal form of the request's, and its id
-- is the hash of its body.
pub mint-Wellformed :
    (p : Platform) (s : CapabilityIssuer) (now : ℤ) (q : MintRequest) (t : Capability)
    → mint p s now q ≡ ok t
    → Wellformed p now q t
unfolding signed_material body
mint-Wellformed p s now q t h =
    let m = mint-Minting p s now q t h in
    let (k, g, e) = finished p s q.quantum m.sealed t m.ends in
    let (positive, bounded) = ttl-bounds q.ttl_seconds m.ttl m.lives in
    subst (Wellformed p now q) (sym e) (
      Wellformed-hybrid p now q m.sealed k g (
        subst (Wellformed p now q) (sym m.seals.made) (record {
          agent = m.agent;
          tool = m.tool;
          user = user-principal q.acting_for m.user;
          ttl = m.ttl;
          positive = positive;
          bounded = bounded;
          expiry = refl;
          is_root = refl;
          decoded = m.decoded;
          decodes = m.decodes;
          normal = m.normal;
          material = m.seals.material;
          hashed = m.seals.hashed;
          id = refl;
        })))
