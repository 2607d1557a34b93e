-- ===== src/Gate/Identity.antt =====
-- The identity stages of the gate: key, signatures, token id, revocation and time.
use raucle.Prelude.{
  Bool, false, Option, none, some, [], ◌==◌, length, ◌<|>◌, or_default, if◌then◌else◌,
}
use raucle.Prelude.Int.{ℤ, ltb_ℤ, leb_ℤ}
use raucle.Text.{Text, text_eq, mem_text}
use raucle.Platform.{Platform, Bytes}
use raucle.Dict.{get}
use raucle.Result.{ok, err}
use raucle.Token.{Capability, signed_material, token_id_of}
use raucle.Gate.Defs.{
  GateDecision, CapabilityGate, deny, unknown_key, bad_signature, no_pq_key, bad_pq_signature,
  wrong_token_id, token_revoked, parent_revoked, not_yet_valid, expired,
}

-- A decoded signature of these bytes verifies.
abbrev pub decoded_verifies : (Bytes → Bool) → Option Bytes → Bool
decoded_verifies f none = false
decoded_verifies f (some sig) = f sig

-- `_verify_signature`: whether it returns without an exception.
unfoldable pub verify_signature : Platform → Capability → Text → Bool
verify_signature p t pem = elim (signed_material p t) [
  | err e ↦ false
  | ok m ↦ decoded_verifies (λ sig. p.verify pem sig m) (p.b64d t.signature)
]

-- The length test and the verification of an ML-DSA-65 signature.
unfoldable pub verify_hybrid : Platform → Capability → Text → Bool
verify_hybrid p t pem = elim (signed_material p t) [
  | err e ↦ false
  | ok m ↦
      decoded_verifies (λ sig. if length sig == 3309 then p.pq_verify pem sig m else false)
        (p.b64d (or_default t.pq_signature []))
]

-- `_check_hybrid_signature`
unfoldable pub check_hybrid_signature : Platform → CapabilityGate → Capability → Option GateDecision
check_hybrid_signature p g t = elim t.pq_key_id [
  | none ↦ none
  | some kid ↦ elim (get kid g.pq_public_keys) [
    | none ↦ some (deny t no_pq_key)
    | some none ↦ some (deny t no_pq_key)
    | some (some pem) ↦ if verify_hybrid p t pem then none else some (deny t bad_pq_signature)
  ]
]

-- `expected_id != token.token_id`
unfoldable pub check_token_id : Platform → Capability → Option GateDecision
check_token_id p t = elim (signed_material p t) [
  | err e ↦ some (deny t bad_signature)
  | ok m ↦ if text_eq (token_id_of p m) t.token_id then none else some (deny t wrong_token_id)
]

abbrev pub is_revoked : CapabilityGate → Option Text → Bool
is_revoked g none = false
is_revoked g (some i) = mem_text i g.revoked

-- `_check_revocation`
unfoldable pub check_revocation : CapabilityGate → Capability → Option GateDecision
check_revocation g t =
    if is_revoked g (some t.token_id)
    then some (deny t token_revoked)
    else if is_revoked g t.parent_id
    then some (deny t parent_revoked)
    else none

-- `_check_time_bounds`
unfoldable pub check_time_bounds : Capability → ℤ → Option GateDecision
check_time_bounds t ts =
    if ltb_ℤ ts t.not_before
    then some (deny t not_yet_valid)
    else if leb_ℤ t.expires_at ts
    then some (deny t expired)
    else none

-- The lookup of the key and the signature test.
unfoldable pub check_signature : Platform → CapabilityGate → Capability → Option GateDecision
check_signature p g t = elim (get t.key_id g.issuers) [
  | none ↦ some (deny t unknown_key)
  | some pem ↦ if verify_signature p t pem then none else some (deny t bad_signature)
]

-- `_check_token_identity`
unfoldable pub check_token_identity :
    Platform → CapabilityGate → Capability → ℤ → Option GateDecision
check_token_identity p g t ts =
    check_signature p g t
    <|> check_hybrid_signature p g t
    <|> check_token_id p t
    <|> check_revocation g t
    <|> check_time_bounds t ts
