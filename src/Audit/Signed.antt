-- ===== src/Audit/Signed.antt =====
-- What a `HashChainSink` signs passes the tests of an `AuditVerifier` that holds its keys.
use raucle.Prelude.{
  ℕ, suc, ◌≡◌, refl, true, false, Option, none, some, List, [], ◌∷◌, ◌++◌, length, ◌==◌, ==_refl,
}
use raucle.Prelude.Int.{pos}
use raucle.Text.{Text, text, text_eq, text_eq_refl, is_empty}
use raucle.Json.{Fields, obj, get_field, py_eq, py_key, same_value}
use raucle.Json.Objects.{object, remove_field, str_value, int_value, bool_value, is_integer}
use raucle.Json.Portable.{audit_json}
use raucle.Platform.{Platform, Bytes}
use raucle.Dict.{get}
use raucle.Result.{ok}
use raucle.Audit.Merkle.{merkle_root}
use raucle.Audit.Sink.{Signer, PqSigner, signed_body, second_signature, checkpoint_body}
use raucle.Audit.Report.{VerificationReport, AuditVerifier, signed}
use raucle.Audit.Records.{verify_signed_header, verify_checkpoint, verify_record_hybrid, key_agrees}

-- The verifier holds the second key under its id, and the scheme accepts what the key signs.
pub record HoldsSecond (p : Platform) (v : AuditVerifier) (q : PqSigner) : Type 0 where
  pub pq_pem : Text
  pub pq_named : is_empty q.pq_key_id ≡ false
  pub pq_listed : get q.pq_key_id v.pq_public_keys ≡ some (some pq_pem)
  pub pq_decodes : (b : Bytes) → p.b64d_strict (p.b64_std b) ≡ some b
  pub pq_shown : (m : Bytes) → is_empty (p.b64_std (q.pq_sign m)) ≡ false
  pub pq_sized : (m : Bytes) → length (q.pq_sign m) ≡ 3309
  pub pq_verifies : (m : Bytes) → p.pq_verify pq_pem (q.pq_sign m) m ≡ true

abbrev pub SecondFits : Platform → AuditVerifier → Option PqSigner → Type 0
SecondFits p v none = v.require_pq ≡ false
SecondFits p v (some q) = HoldsSecond p v q

-- The verifier holds the signer's keys, the schemes accept what the keys sign, base64 can be undone, and
-- neither a signature nor a digest is printed as the empty text.
pub record Fits (p : Platform) (k : Signer) (v : AuditVerifier) : Type 0 where
  pub pem : Text
  pub keyed : v.public_key ≡ some pem
  pub decodes : (b : Bytes) → p.b64d_std (p.b64_std b) ≡ some b
  pub shown : (m : Bytes) → is_empty (p.b64_std (k.sign m)) ≡ false
  pub verifies : (m : Bytes) → p.verify pem (k.sign m) m ≡ true
  pub digest_shown : (m : Bytes) → is_empty (p.sha256_hex m) ≡ false
  pub second : SecondFits p v k.hybrid

abbrev pub header_fields : Platform → Signer → Text → Bytes → Option PqSigner → Fields
header_fields p k stamp m o = object (
    signed_body k stamp
    ++ (text "signature", str_value (p.b64_std (k.sign m))) ∷ second_signature p m o)

abbrev pub checkpoint_fields :
    Platform → Signer → ℕ → Text → Text → Bytes → Option PqSigner → Fields
checkpoint_fields p k n root stamp m o = object (
    (text "checkpoint", bool_value true) ∷ checkpoint_body n root k.key_id
    ++ (text "timestamp", str_value stamp)
      ∷ (text "signature", str_value (p.b64_std (k.sign m)))
      ∷ second_signature p m o)

length-test : (xs : Bytes) (n : ℕ) → length xs ≡ n → (length xs == n) ≡ true
length-test xs n h = rw h (==_refl n)

pub signed_header-passes :
    (p : Platform) (k : Signer) (v : AuditVerifier) (stamp : Text) (m : Bytes)
    (r : VerificationReport) (o : Option PqSigner) (f : Fits p k v)
    → SecondFits p v o
    → audit_json p (obj (object (signed_body k stamp))) ≡ ok m
    → verify_signed_header p v (header_fields p k stamp m o) r
      ≡ record r { chain_key_id = k.key_id }
unfolding verify_signed_header verify_record_hybrid get_field remove_field text_eq
signed_header-passes p k v stamp m r none f no_second e =
    rw (f.shown m, f.keyed, e, f.decodes (k.sign m), f.verifies m, no_second) refl
signed_header-passes p k v stamp m r (some q) f s e =
    rw
      (
        f.shown m,
        f.keyed,
        e,
        f.decodes (k.sign m),
        f.verifies m,
        s.pq_named,
        s.pq_listed,
        s.pq_shown m,
        s.pq_decodes (q.pq_sign m),
        length-test (q.pq_sign m) 3309 (s.pq_sized m),
        s.pq_verifies m,
      )
      refl

key_agrees-own :
    (fs : Fields) (c : Text)
    → get_field (text "key_id") fs ≡ some (str_value c)
    → key_agrees fs c ≡ true
key_agrees-own fs [] h = refl
key_agrees-own fs (x ∷ c) h = rw h (text_eq_refl (x ∷ c))

pub is_integer-own : (n : ℕ) → is_integer (some (int_value (pos n))) (pos n) ≡ true
unfolding py_eq py_key same_value
is_integer-own n = ==_refl n

pub signed_checkpoint-passes :
    (p : Platform) (k : Signer) (v : AuditVerifier) (stamp root : Text) (m : Bytes)
    (r : VerificationReport) (leaves : List Text) (n : ℕ) (o : Option PqSigner) (f : Fits p k v)
    → SecondFits p v o
    → merkle_root p leaves ≡ ok root
    → audit_json p (obj (object (checkpoint_body n root k.key_id))) ≡ ok m
    → r.signed_mode ≡ signed
    → r.chain_key_id ≡ k.key_id
    → verify_checkpoint p v (checkpoint_fields p k n root stamp m o) leaves n r ≡ record r {
      checkpoint_count = suc r.checkpoint_count;
      valid_signatures = suc r.valid_signatures;
    }
unfolding verify_checkpoint verify_record_hybrid get_field text_eq
signed_checkpoint-passes p k v stamp root m r leaves n none f no_second t e mode key =
    rw
      (
        mode,
        is_integer-own n,
        t,
        text_eq_refl root,
        key,
        key_agrees-own (checkpoint_fields p k n root stamp m none) k.key_id refl,
        f.keyed,
        e,
        f.decodes (k.sign m),
        f.verifies m,
        no_second,
      )
      refl
signed_checkpoint-passes p k v stamp root m r leaves n (some q) f s t e mode key =
    rw
      (
        mode,
        is_integer-own n,
        t,
        text_eq_refl root,
        key,
        key_agrees-own (checkpoint_fields p k n root stamp m (some q)) k.key_id refl,
        f.keyed,
        e,
        f.decodes (k.sign m),
        f.verifies m,
        s.pq_named,
        s.pq_listed,
        s.pq_shown m,
        s.pq_decodes (q.pq_sign m),
        length-test (q.pq_sign m) 3309 (s.pq_sized m),
        s.pq_verifies m,
      )
      refl
