-- ===== src/Audit/Records.antt =====
-- The three kinds of record, as `AuditVerifier` tests them.
use raucle.Prelude.{
  ℕ, suc, ◌==◌, Bool, true, false, not, ◌&&◌, Option, none, some, List, [], ◌∷◌, length,
  if◌then◌else◌,
}
use raucle.Prelude.Int.{pos, negsuc}
use raucle.Text.{Text, text, is_empty}
use raucle.Json.{obj, Fields, get_field}
use raucle.Json.Objects.{
  object, remove_field, truthy, is_text, is_integer, text_of, str_value, int_value, value_or,
}
use raucle.Json.Portable.{audit_json}
use raucle.Platform.{Platform, Bytes}
use raucle.Dict.{get}
use raucle.Result.{Result, ok, err, ◌>>=◌}
use raucle.Audit.Merkle.{merkle_root}
use raucle.Audit.Report.{
  index_mismatch, prev_hash_mismatch, hash_mismatch, duplicate_header, unsigned_header,
  no_public_key, header_signature, header_no_pq, header_pq, checkpoint_in_unsigned,
  checkpoint_index, bad_leaf, root_mismatch, foreign_key, checkpoint_no_pq, checkpoint_pq,
  checkpoint_signature, SignedMode, unknown, signed, unsigned, unverifiable, VerificationReport,
  AuditVerifier, fault, fault_at_unless,
}

-- The hash of a record without its `hash` member.
unfoldable pub recomputed_hash : Platform → Fields → Result Text
recomputed_hash p fs =
    audit_json p (obj (remove_field (text "hash") fs)) >>= λ m. ok (p.sha256_hex m)

-- `_verify_event_record`: the report after the three tests.
unfoldable pub verify_event_record :
    Platform → Fields → ℕ → Text → VerificationReport → Result VerificationReport
unfolding recomputed_hash
verify_event_record p fs n prev r =
    let index = get_field (text "index") fs in
    let indexed =
      fault_at_unless (is_integer index (pos n)) (value_or index (int_value (pos n))) index_mismatch
        r in
    let linked =
      fault_at_unless (is_text (get_field (text "prev_hash") fs) prev) (int_value (pos n))
        prev_hash_mismatch indexed in
    recomputed_hash p fs >>= λ h. ok (
      fault_at_unless (is_text (get_field (text "hash") fs) h) (int_value (pos n)) hash_mismatch
        linked)

-- A decoded signature of these bytes verifies.
abbrev pub decoded_holds : (Bytes → Bool) → Option Bytes → Bool
decoded_holds f none = false
decoded_holds f (some sig) = f sig

abbrev pub on_bytes : Result Bytes → (Bytes → Bool) → Bool
on_bytes (err e) f = false
on_bytes (ok m) f = f m

-- `self._public_key.verify(…)` returns; every exception counts as a failure.
abbrev pub classical_holds : Platform → Text → Text → Result Bytes → Bool
classical_holds p pem sig body =
    on_bytes body (λ m. decoded_holds (λ s. p.verify pem s m) (p.b64d_std sig))

abbrev pub pq_key_holds : Platform → Text → Bytes → Option (Option Text) → Bool
pq_key_holds p sig m none = false
pq_key_holds p sig m (some none) = false
pq_key_holds p sig m (some (some pem)) =
    not (is_empty sig)
    && decoded_holds (λ s. (length s == 3309) && p.pq_verify pem s m) (p.b64d_strict sig)

-- `verify_record_hybrid` of raucle/pq.py, where the classical half has been verified before.
unfoldable pub verify_record_hybrid : Platform → AuditVerifier → Fields → Result Bytes → Bool
verify_record_hybrid p v fs body = on_bytes body (λ m.
    pq_key_holds p (text_of (get_field (text "pq_signature") fs)) m
      (get (text_of (get_field (text "pq_key_id") fs)) v.pq_public_keys))

-- A signed header without the members that the signature adds.
abbrev pub unsigned_part : Fields → Fields
unsigned_part fs =
    remove_field (text "pq_signature")
      (remove_field (text "pq_key_id") (remove_field (text "signature") fs))

abbrev pub count_invalid : VerificationReport → VerificationReport
count_invalid r = record r { invalid_signatures = suc r.invalid_signatures }

-- The post-quantum part of a header: a key id is declared or not, and may be required.
abbrev pub header_hybrid : Bool → Bool → Bool → VerificationReport → VerificationReport
header_hybrid required true holds r = if holds then r else fault header_pq r
header_hybrid true false holds r = fault header_no_pq r
header_hybrid false false holds r = r

abbrev pub header_classical : Bool → VerificationReport → VerificationReport → VerificationReport
header_classical false r next = fault header_signature (count_invalid r)
header_classical true r next = next

-- The public key is there or not.
abbrev pub header_by_key :
    Platform → AuditVerifier → Fields → VerificationReport → Option Text → VerificationReport
header_by_key p v fs r none = fault no_public_key (record r { signed_mode = unverifiable })
header_by_key p v fs r (some pem) =
    header_classical
      (classical_holds p pem (text_of (get_field (text "signature") fs))
        (audit_json p (obj (unsigned_part fs))))
      r
      (header_hybrid v.require_pq (truthy (get_field (text "pq_key_id") fs))
        (verify_record_hybrid p v fs (audit_json p (obj (unsigned_part fs)))) r)

abbrev pub header_signed :
    Platform → AuditVerifier → Fields → VerificationReport → Bool → VerificationReport
header_signed p v fs r false = fault unsigned_header r
header_signed p v fs r true = header_by_key p v fs r v.public_key

-- `_verify_signed_chain_header`
unfoldable pub verify_signed_header :
    Platform → AuditVerifier → Fields → VerificationReport → VerificationReport
unfolding verify_record_hybrid
verify_signed_header p v fs r =
    header_signed p v fs (record r { chain_key_id = text_of (get_field (text "key_id") fs) })
      (truthy (get_field (text "signature") fs))

abbrev pub header_mode :
    Platform → AuditVerifier → Fields → VerificationReport → Bool → VerificationReport
header_mode p v fs r true = verify_signed_header p v fs (record r { signed_mode = signed })
header_mode p v fs r false = record r { signed_mode = unsigned }

abbrev pub first_header :
    Platform → AuditVerifier → Fields → VerificationReport → SignedMode → VerificationReport
first_header p v fs r unknown = header_mode p v fs r (truthy (get_field (text "signed") fs))
first_header p v fs r _ = fault duplicate_header r

-- `_verify_chain_header`
unfoldable pub verify_chain_header :
    Platform → AuditVerifier → Fields → VerificationReport → VerificationReport
unfolding verify_signed_header
verify_chain_header p v fs r = first_header p v fs r r.signed_mode

-- The body of a checkpoint, from its record.
abbrev pub checkpoint_claims : Fields → Fields
checkpoint_claims fs = object (
    (text "index", value_or (get_field (text "index") fs) (int_value (negsuc 0)))
    ∷ (text "merkle_root", value_or (get_field (text "merkle_root") fs) (str_value []))
    ∷ (text "key_id", value_or (get_field (text "key_id") fs) (str_value []))
    ∷ [])

abbrev pub checkpoint_hybrid : Bool → Bool → Bool → VerificationReport → VerificationReport
checkpoint_hybrid required true true r = record r { valid_signatures = suc r.valid_signatures }
checkpoint_hybrid required true false r = fault checkpoint_pq (count_invalid r)
checkpoint_hybrid true false holds r = fault checkpoint_no_pq (count_invalid r)
checkpoint_hybrid false false holds r = record r { valid_signatures = suc r.valid_signatures }

abbrev pub checkpoint_classical :
    Bool → VerificationReport → VerificationReport → VerificationReport
checkpoint_classical false r next = fault checkpoint_signature (count_invalid r)
checkpoint_classical true r next = next

-- The signatures, if there is a key to verify them with.
abbrev pub checkpoint_by_key :
    Platform → AuditVerifier → Fields → VerificationReport → Option Text → VerificationReport
checkpoint_by_key p v fs r none = r
checkpoint_by_key p v fs r (some pem) =
    checkpoint_classical
      (classical_holds p pem (text_of (get_field (text "signature") fs))
        (audit_json p (obj (checkpoint_claims fs))))
      r
      (checkpoint_hybrid v.require_pq (truthy (get_field (text "pq_key_id") fs))
        (verify_record_hybrid p v fs (audit_json p (obj (checkpoint_claims fs)))) r)

-- `chain_key_id` is empty or the checkpoint's key.
abbrev pub key_agrees : Fields → Text → Bool
key_agrees fs [] = true
key_agrees fs (c ∷ s) = is_text (get_field (text "key_id") fs) (c ∷ s)

abbrev pub checkpoint_root :
    Platform → AuditVerifier → Fields → VerificationReport → Result Text → VerificationReport
checkpoint_root p v fs r (err e) = fault bad_leaf r
checkpoint_root p v fs r (ok root) =
    if not (is_text (get_field (text "merkle_root") fs) root)
    then fault root_mismatch r
    else if not (key_agrees fs r.chain_key_id)
    then fault foreign_key r
    else checkpoint_by_key p v fs r v.public_key

abbrev pub checkpoint_mode :
    Platform
    → AuditVerifier
    → Fields
    → List Text
    → ℕ
    → VerificationReport
    → SignedMode
    → VerificationReport
checkpoint_mode p v fs leaves n r unsigned = fault checkpoint_in_unsigned r
checkpoint_mode p v fs leaves n r _ =
    if not (is_integer (get_field (text "index") fs) (pos n))
    then fault checkpoint_index r
    else checkpoint_root p v fs r (merkle_root p leaves)

-- `_verify_checkpoint`
unfoldable pub verify_checkpoint :
    Platform → AuditVerifier → Fields → List Text → ℕ → VerificationReport → VerificationReport
unfolding verify_record_hybrid
verify_checkpoint p v fs leaves n r =
    checkpoint_mode p v fs leaves n (record r { checkpoint_count = suc r.checkpoint_count })
      r.signed_mode
