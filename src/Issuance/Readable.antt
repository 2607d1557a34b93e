-- ===== src/Issuance/Readable.antt =====
-- A token that `mint` returns passes the parse boundary (`Capability.to_dict` and `from_dict`).
use mathlib.Core.Path.{subst}
use raucle.Prelude.{◌≡◌, refl, sym, ap, ◌∙◌, true, [], ◌∷◌}
use raucle.Prelude.Int.{ℤ}
use raucle.Text.{Text, starts_with}
use raucle.Platform.{Platform, Bytes}
use raucle.Result.{ok}
use raucle.Constraints.{Constraints, normalise_constraints, normalise-registered}
use raucle.Token.{Capability, is_agent_id, is_tool, token_id_of}
use raucle.Issuer.{CapabilityIssuer, MintRequest, draft, mint}
use raucle.Json.{Fields}
use raucle.Wire.{to_dict, from_dict}
use raucle.Wire.Intents.{IsRegistered}
use raucle.Wire.Back.{is_named, Readable, as_written, to_dict-object, object-from_dict}
use raucle.Issuance.Seals.{Minting, mint-Minting}
use raucle.Issuance.Minted.{finished}

agent_id-named : (s : Text) → is_agent_id s ≡ true → is_named s ≡ true
unfolding is_agent_id starts_with
agent_id-named [] h = cc
agent_id-named (c ∷ s) h = refl

tool-named : (s : Text) → is_tool s ≡ true → is_named s ≡ true
unfolding is_tool
tool-named [] h = cc
tool-named (c ∷ s) h = refl

token_id-named : (p : Platform) (m : Bytes) → is_named (token_id_of p m) ≡ true
unfolding token_id_of
token_id-named p m = refl

Readable-minted :
    (p : Platform) (s : CapabilityIssuer) (now : ℤ) (q : MintRequest) (t : Capability)
    → is_named s.issuer ≡ true
    → is_named s.key_id ≡ true
    → IsRegistered q.intent
    → Minting p s now q t
    → Readable t
Readable-minted p s now q t issuer key registered m =
    let (k, g, made) = finished p s q.quantum m.sealed t m.ends in
    let second : Capability → Capability = λ x. record x { pq_key_id = k; pq_signature = g } in
    let first : Capability = record (draft s now q m.ttl m.hashes m.constraints) {
      token_id = token_id_of p m.seals.material;
      signature = p.b64 (s.sign m.seals.material);
    } in
    let whole : t ≡ second first = made ∙ ap second m.seals.made in
    subst Readable (sym whole) (record {
      id = token_id-named p m.seals.material;
      agent_named = agent_id-named q.agent_id m.agent;
      tool_named = tool-named q.tool m.tool;
      issuer = issuer;
      key = key;
      agent = m.agent;
      tool_form = m.tool;
      user = m.user;
      intended = m.intended;
      registered = registered;
      linked = refl;
    })

-- The object that `to_dict` makes of a token that `mint` returned is read by `from_dict`, and every member
-- is read as it was in the token, with the constraints in normal form, if the issuer has a name and a
-- key id, and the constraints of the intent are of kinds in the registry. (A second signature is read as
-- `to_dict` writes it: empty where a key id stands without one, absent without a key id.)
pub mint-from_dict :
    (p : Platform) (s : CapabilityIssuer) (now : ℤ) (q : MintRequest) (t : Capability) (d : Fields)
    → is_named s.issuer ≡ true
    → is_named s.key_id ≡ true
    → IsRegistered q.intent
    → mint p s now q ≡ ok t
    → to_dict p t ≡ ok d
    → (n : Constraints) × (normalise_constraints p t.constraints ≡ ok n)
      × (from_dict d ≡ ok (as_written t n))
mint-from_dict p s now q t d issuer key registered h e =
    let r = Readable-minted p s now q t issuer key registered (mint-Minting p s now q t h) in
    let (n, normal, made) = to_dict-object p t d e in
    let known = normalise-registered p t.constraints n normal in
    (n, normal, subst (λ x. from_dict x ≡ ok (as_written t n)) made (object-from_dict t n known r))
