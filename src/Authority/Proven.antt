-- ===== src/Authority/Proven.antt =====
-- What the gate knows of the policy proof of an allowed token (`_check_proof_enforcement`), and of its
-- post-quantum signature (`_check_hybrid_signature`).
use raucle.Prelude.{◌≡◌, refl, ap, true, Option, none, some, [], ◌∷◌, arith, ℕ, <|>-eq-none}
use raucle.Prelude.Int.{ℤ}
use raucle.Text.{Text, text_eq_sound}
use raucle.Platform.{Platform}
use raucle.Dict.{get}
use raucle.Token.{Capability}
use raucle.Issuer.{ProofResult, is_proven}
use raucle.Gate.{
  GateDecision, CapabilityGate, ProofMode, off, lenient, strict, Call, check, check_token_identity,
  check_signature, check_hybrid_signature, check_proof_enforcement, check_proof_binding,
  check_proof_hash_mismatch, check_strict_binding, policy_bound, if_strict, check_cited, check_hash,
  unless_off, verify_hybrid, hash_agrees, hash_given,
}
use raucle.Authority.Walks.{check-allowed}

-- The cited proof is in the cache of the gate and proven, and the token carries the two hashes of it.
pub record Cites (g : CapabilityGate) (t : Capability) : Type 0 where
  pub hash : Text
  pub proof : ProofResult
  pub named : t.policy_proof_hash ≡ some hash
  pub cached : get hash g.trusted_proofs ≡ some proof
  pub proven : is_proven proof ≡ true
  pub grammar : t.grammar_hash ≡ some proof.grammar_hash
  pub policy : t.policy_hash ≡ some proof.policy_hash

mismatch-none :
    (t : Capability) (r : ProofResult)
    → check_proof_hash_mismatch t r ≡ none
    → (is_proven r ≡ true)
      × (hash_agrees t.grammar_hash r.grammar_hash ≡ true)
      × (hash_agrees t.policy_hash r.policy_hash ≡ true)
unfolding check_proof_hash_mismatch
mismatch-none t r h = ground arith

strict_binding-none :
    (p : Platform) (t : Capability)
    → check_strict_binding p t ≡ none
    → (hash_given t.grammar_hash ≡ true)
      × (hash_given t.policy_hash ≡ true)
      × (policy_bound p t ≡ true)
unfolding check_strict_binding
strict_binding-none p t h = ground arith

-- A hash that is there and agrees is the hash.
given_sound :
    (o : Option Text) (s : Text) → hash_given o ≡ true → hash_agrees o s ≡ true → o ≡ some s
given_sound none s h k = cc
given_sound (some []) s h k = cc
given_sound (some (c ∷ o)) s h k = ap some (text_eq_sound (c ∷ o) s k)

cited-Cites :
    (p : Platform) (g : CapabilityGate) (t : Capability) (hash : Text) (o : Option ProofResult)
    → t.policy_proof_hash ≡ some hash
    → get hash g.trusted_proofs ≡ o
    → check_cited p strict t o ≡ none
    → Cites g t × (policy_bound p t ≡ true)
cited-Cites p g t hash none e found h = cc
cited-Cites p g t hash (some r) e found h =
    let (h₀, h₁) = <|>-eq-none (check_proof_hash_mismatch t r) _ h in
    let (proven, grammar, policy) = mismatch-none t r h₀ in
    let (has_grammar, has_policy, bound) = strict_binding-none p t h₁ in
    (
      record {
        hash = hash;
        proof = r;
        named = e;
        cached = found;
        proven = proven;
        grammar = given_sound t.grammar_hash r.grammar_hash has_grammar grammar;
        policy = given_sound t.policy_hash r.policy_hash has_policy policy;
      },
      bound,
    )

hash-Cites :
    (p : Platform) (g : CapabilityGate) (t : Capability) (o : Option Text)
    → g.proof_mode ≡ strict
    → t.policy_proof_hash ≡ o
    → check_hash p g t o ≡ none
    → Cites g t × (policy_bound p t ≡ true)
hash-Cites p g t none mode e h = let h' : if_strict strict (some _) ≡ none = rw mode at h in cc
hash-Cites p g t (some []) mode e h = let h' : if_strict strict (some _) ≡ none = rw mode at h in cc
hash-Cites p g t (some (c ∷ s)) mode e h =
    cited-Cites p g t (c ∷ s) (get (c ∷ s) g.trusted_proofs) e refl (rw mode at h)

enforced : (m : ProofMode) (o : Option GateDecision) → m ≡ strict → unless_off m o ≡ none → o ≡ none
enforced off o e h = cc
enforced lenient o e h = h
enforced strict o e h = h

-- A gate in strict mode allows a call only with a token whose proof is in the gate's cache and proven,
-- whose grammar hash and policy hash are there and are the proof's, and whose policy hash is the hash of
-- the constraints enforced.
pub check-allow_proven :
    (fuel : ℕ) (p : Platform) (g : CapabilityGate) (t : Capability) (call : Call) (ts : ℤ)
    (d : GateDecision)
    → g.proof_mode ≡ strict
    → check fuel p g t call ts ≡ some d
    → d.allowed ≡ true
    → Cites g t × (policy_bound p t ≡ true)
unfolding check_proof_enforcement check_proof_binding
check-allow_proven fuel p g t call ts d mode h a =
    let (_, _, quiet, _) = check-allowed p g t fuel call ts d h a in
    hash-Cites p g t t.policy_proof_hash mode refl (enforced g.proof_mode _ mode quiet)

hybrid-none :
    (p : Platform) (g : CapabilityGate) (t : Capability) (kid : Text)
    → t.pq_key_id ≡ some kid
    → check_hybrid_signature p g t ≡ none
    → (pem : Text) × (get kid g.pq_public_keys ≡ some (some pem)) × (verify_hybrid p t pem ≡ true)
unfolding check_hybrid_signature
hybrid-none p g t kid e h = ground arith

-- A hybrid token is allowed only with a second signature that a registered post-quantum key verifies.
pub check-allow_hybrid :
    (fuel : ℕ) (p : Platform) (g : CapabilityGate) (t : Capability) (call : Call) (ts : ℤ)
    (d : GateDecision) (kid : Text)
    → t.pq_key_id ≡ some kid
    → check fuel p g t call ts ≡ some d
    → d.allowed ≡ true
    → (pem : Text) × (get kid g.pq_public_keys ≡ some (some pem)) × (verify_hybrid p t pem ≡ true)
unfolding check_token_identity
check-allow_hybrid fuel p g t call ts d kid e h a =
    let (real, _, _, _) = check-allowed p g t fuel call ts d h a in
    hybrid-none p g t kid e
      (<|>-eq-none (check_hybrid_signature p g t) _
        (<|>-eq-none (check_signature p g t) _ real).1).0
