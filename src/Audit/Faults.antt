-- ===== src/Audit/Faults.antt =====
-- A fault is never taken back: a report that is valid after a test was valid before it.
use raucle.Prelude.{
  ℕ, ◌≡◌, refl, Bool, true, false, not, ◌&&◌, Option, none, some, List, if◌then◌else◌,
}
use raucle.Prelude.Int.{pos}
use raucle.Text.{Text, text, text_eq}
use raucle.Json.Objects.{is_integer, is_text}
use raucle.Json.{Value, Fields, get_field}
use raucle.Platform.{Platform}
use raucle.Result.{Result, ok, err}
use raucle.Audit.Merkle.{merkle_root}
use raucle.Audit.Report.{
  AuditError, bad_leaf, checkpoint_in_unsigned, downgraded, unverifiable_tail, head_index,
  head_hash, head_leaf, head_root, root_mismatch, foreign_key, checkpoint_index, SignedMode,
  unknown, signed, unsigned, unverifiable, VerificationReport, AuditVerifier, fault, fault_unless,
  fault_at_unless,
}
use raucle.Audit.Records.{
  header_hybrid, header_classical, header_by_key, header_signed, verify_signed_header, header_mode,
  first_header, verify_chain_header, key_agrees, checkpoint_hybrid, checkpoint_classical,
  checkpoint_by_key, checkpoint_root, checkpoint_mode, verify_checkpoint,
}
use raucle.Audit.Verify.{
  Progress, Head, verify_end, verify_head, is_signed, uncovered, head_index_ok, head_hash_ok,
  head_root_test,
}

pub fault_unless-valid :
    (b : Bool) (e : AuditError) (r : VerificationReport)
    → (fault_unless b e r).valid ≡ true
    → (b ≡ true) × (r.valid ≡ true)
fault_unless-valid true e r h = (refl, h)
fault_unless-valid false e r h = cc

pub fault_at_unless-valid :
    (b : Bool) (i : Value) (e : AuditError) (r : VerificationReport)
    → (fault_at_unless b i e r).valid ≡ true
    → (b ≡ true) × (fault_at_unless b i e r ≡ r)
fault_at_unless-valid true i e r h = (refl, refl)
fault_at_unless-valid false i e r h = cc

-- A report that is valid came from one that is valid and has counted as many events.
abbrev pub Stems : VerificationReport → VerificationReport → Type 0
Stems s r = s.valid ≡ true → (r.valid ≡ true) × (s.event_count ≡ r.event_count)

fault-Stems : (e : AuditError) (r q : VerificationReport) → Stems (fault e r) q
fault-Stems e r q h = cc

fault_else-Stems :
    (b : Bool) (e : AuditError) (r t : VerificationReport)
    → Stems t r
    → Stems (if b then fault e r else t) r
fault_else-Stems true e r t f h = cc
fault_else-Stems false e r t f h = f h

header_hybrid-Stems : (a b c : Bool) (r : VerificationReport) → Stems (header_hybrid a b c r) r
header_hybrid-Stems a true true r h = (h, refl)
header_hybrid-Stems a true false r h = cc
header_hybrid-Stems true false c r h = cc
header_hybrid-Stems false false c r h = (h, refl)

header_classical-Stems :
    (b : Bool) (r s : VerificationReport) → Stems s r → Stems (header_classical b r s) r
header_classical-Stems true r s f h = f h
header_classical-Stems false r s f h = cc

header_by_key-Stems :
    (p : Platform) (v : AuditVerifier) (fs : Fields) (r : VerificationReport) (o : Option Text)
    → Stems (header_by_key p v fs r o) r
header_by_key-Stems p v fs r none h = cc
header_by_key-Stems p v fs r (some pem) h =
    header_classical-Stems _ r _ (header_hybrid-Stems _ _ _ r) h

header_signed-Stems :
    (p : Platform) (v : AuditVerifier) (fs : Fields) (r : VerificationReport) (b : Bool)
    → Stems (header_signed p v fs r b) r
header_signed-Stems p v fs r false h = cc
header_signed-Stems p v fs r true h = header_by_key-Stems p v fs r v.public_key h

header_mode-Stems :
    (p : Platform) (v : AuditVerifier) (fs : Fields) (r : VerificationReport) (b : Bool)
    → Stems (header_mode p v fs r b) r
unfolding verify_signed_header
header_mode-Stems p v fs r false h = (h, refl)
header_mode-Stems p v fs r true h = header_signed-Stems p v fs _ _ h

pub verify_chain_header-Stems :
    (p : Platform) (v : AuditVerifier) (fs : Fields) (r : VerificationReport)
    → Stems (verify_chain_header p v fs r) r
unfolding verify_chain_header
verify_chain_header-Stems p v fs r h = by_mode r.signed_mode h
  where
    by_mode : (m : SignedMode) → Stems (first_header p v fs r m) r
    by_mode unknown h = header_mode-Stems p v fs r _ h
    by_mode signed h = cc
    by_mode unsigned h = cc
    by_mode unverifiable h = cc

checkpoint_hybrid-Stems :
    (a b c : Bool) (r : VerificationReport) → Stems (checkpoint_hybrid a b c r) r
checkpoint_hybrid-Stems a true true r h = (h, refl)
checkpoint_hybrid-Stems a true false r h = cc
checkpoint_hybrid-Stems true false c r h = cc
checkpoint_hybrid-Stems false false c r h = (h, refl)

checkpoint_classical-Stems :
    (b : Bool) (r s : VerificationReport) → Stems s r → Stems (checkpoint_classical b r s) r
checkpoint_classical-Stems true r s f h = f h
checkpoint_classical-Stems false r s f h = cc

checkpoint_by_key-Stems :
    (p : Platform) (v : AuditVerifier) (fs : Fields) (r : VerificationReport) (o : Option Text)
    → Stems (checkpoint_by_key p v fs r o) r
checkpoint_by_key-Stems p v fs r none h = (h, refl)
checkpoint_by_key-Stems p v fs r (some pem) h =
    checkpoint_classical-Stems _ r _ (checkpoint_hybrid-Stems _ _ _ r) h

checkpoint_root-Stems :
    (p : Platform) (v : AuditVerifier) (fs : Fields) (r : VerificationReport) (o : Result Text)
    → Stems (checkpoint_root p v fs r o) r
checkpoint_root-Stems p v fs r (err e) = fault-Stems bad_leaf r r
checkpoint_root-Stems p v fs r (ok root) =
    let keyed = checkpoint_by_key p v fs r v.public_key in
    let foreign = not (key_agrees fs r.chain_key_id) in
    fault_else-Stems (not (is_text (get_field (text "merkle_root") fs) root)) root_mismatch r
      (if foreign then fault foreign_key r else keyed)
      (fault_else-Stems foreign foreign_key r keyed (checkpoint_by_key-Stems p v fs r v.public_key))

checkpoint_mode-Stems :
    (p : Platform) (v : AuditVerifier) (fs : Fields) (leaves : List Text) (n : ℕ)
    (r : VerificationReport) (m : SignedMode)
    → Stems (checkpoint_mode p v fs leaves n r m) r
checkpoint_mode-Stems p v fs leaves n r m = by_mode m
  where
    indexed :
        Stems
          (if not (is_integer (get_field (text "index") fs) (pos n))
            then fault checkpoint_index r
            else checkpoint_root p v fs r (merkle_root p leaves))
          r
    indexed =
        fault_else-Stems (not (is_integer (get_field (text "index") fs) (pos n))) checkpoint_index r
          _ (checkpoint_root-Stems p v fs r (merkle_root p leaves))

    by_mode : (m : SignedMode) → Stems (checkpoint_mode p v fs leaves n r m) r
    by_mode unsigned = fault-Stems checkpoint_in_unsigned r r
    by_mode unknown = indexed
    by_mode signed = indexed
    by_mode unverifiable = indexed

pub verify_checkpoint-Stems :
    (p : Platform) (v : AuditVerifier) (fs : Fields) (leaves : List Text) (n : ℕ)
    (r : VerificationReport)
    → Stems (verify_checkpoint p v fs leaves n r) r
unfolding verify_checkpoint
verify_checkpoint-Stems p v fs leaves n r h =
    checkpoint_mode-Stems p v fs leaves n _ r.signed_mode h

pub verify_end-valid :
    (v : AuditVerifier) (g : Progress) (o : Option Text)
    → (verify_end v g o).valid ≡ true
    → g.report.valid ≡ true
verify_end-valid v g none h = h
verify_end-valid v g (some pem) h =
    let known = fault_unless (is_signed g.report.signed_mode) downgraded g.report in
    let covered =
      not (is_signed g.report.signed_mode && uncovered g.report.event_count g.attested) in
    let before = (fault_unless-valid covered unverifiable_tail known h).1 in
    (fault_unless-valid (is_signed g.report.signed_mode) downgraded g.report before).1

head_root_test-valid :
    (p : Platform) (leaves : List Text) (o : Option Text) (r : VerificationReport)
    → (head_root_test p leaves o r).valid ≡ true
    → r.valid ≡ true
head_root_test-valid p leaves none r h = h
head_root_test-valid p leaves (some x) r h = by_root (merkle_root p leaves) h
  where
    by_root :
        (m : Result Text)
        → (elim m as (λ _. VerificationReport) [
          | err e ↦ fault head_leaf r
          | ok root ↦ fault_unless (text_eq x root) head_root r
        ]).valid
          ≡ true
        → r.valid ≡ true
    by_root (err e) h = cc
    by_root (ok root) h = (fault_unless-valid _ _ r h).1

-- A head that the verifier was given and did not complain of has the index and the hash of the last
-- event, as far as it names them.
pub verify_head-valid :
    (p : Platform) (g : Progress) (d : Head) (r : VerificationReport)
    → (verify_head p g (some d) r).valid ≡ true
    → (head_index_ok g.report.event_count d.index ≡ true)
      × (head_hash_ok g.last_hash d.hash ≡ true)
      × (r.valid ≡ true)
verify_head-valid p g d r h =
    let indexed = fault_unless (head_index_ok g.report.event_count d.index) head_index r in
    let hashed = fault_unless (head_hash_ok g.last_hash d.hash) head_hash indexed in
    let (b, h1) =
      fault_unless-valid (head_hash_ok g.last_hash d.hash) head_hash indexed
        (head_root_test-valid p g.leaf_hashes d.exp_root hashed h) in
    let (a, h2) = fault_unless-valid (head_index_ok g.report.event_count d.index) head_index r h1 in
    (a, b, h2)
