-- ===== src/Audit/Verify.antt =====
-- `verify_chain`: the loop over the lines, and the tests after it.
use raucle.Prelude.{
  ℕ, zero, suc, ltb, Bool, true, false, not, ◌&&◌, Option, none, some, List, [], ◌∷◌, ◌++◌,
  if◌then◌else◌,
}
use raucle.Prelude.Int.{ℤ, pos, negsuc, eq_ℤ}
use raucle.Text.{Text, text, text_eq}
use raucle.Json.{Fields, get_field}
use raucle.Json.Objects.{truthy, text_of}
use raucle.Platform.{Platform}
use raucle.Result.{Result, ok, err, not_an_object, duplicate_key, ◌>>=◌}
use raucle.Audit.Merkle.{merkle_root}
use raucle.Audit.Sink.{Line, blank, bad_json, object_line, other_json, duplicate_keys, genesis_hash}
use raucle.Audit.Report.{
  invalid_json, downgraded, unverifiable_tail, head_index, head_hash, head_leaf, head_root,
  SignedMode, signed, VerificationReport, AuditVerifier, new_report, fault, fault_unless,
}
use raucle.Audit.Records.{verify_event_record, verify_chain_header, verify_checkpoint}

-- The local variables of the loop; `attested` is the number of events under the last signed checkpoint
-- that verified, and `report.event_count` the index that is expected next.
pub record Progress : Type 0 where
  pub report : VerificationReport
  pub prev_hash : Text
  pub leaf_hashes : List Text
  pub last_hash : Option Text
  pub attested : Option ℕ

abbrev pub initial_progress : Progress
initial_progress = record {
  report = new_report;
  prev_hash = genesis_hash;
  leaf_hashes = [];
  last_hash = none;
  attested = none;
}

-- `stored_hash or prev_hash`
abbrev pub or_previous : Text → Text → Text
or_previous [] prev = prev
or_previous (c ∷ s) prev = c ∷ s

abbrev pub count_event : VerificationReport → VerificationReport
count_event r = record r { event_count = suc r.event_count }

abbrev pub after_event : Progress → Text → VerificationReport → Progress
after_event g stored r = record g {
  report = count_event r;
  prev_hash = or_previous stored g.prev_hash;
  leaf_hashes = g.leaf_hashes ++ stored ∷ [];
  last_hash = some stored;
}

abbrev pub verify_event : Platform → Progress → Fields → Result Progress
verify_event p g fs = verify_event_record p fs g.report.event_count g.prev_hash g.report >>= λ r.
    ok (after_event g (text_of (get_field (text "hash") fs)) r)

-- The mark moves on if the checkpoint added a verified signature.
abbrev pub mark : Progress → VerificationReport → Progress
mark g r = record g {
  report = r;
  attested =
      if ltb g.report.valid_signatures r.valid_signatures
      then some g.report.event_count
      else g.attested;
}

abbrev pub verify_data : Platform → AuditVerifier → Progress → Fields → Bool → Result Progress
verify_data p v g fs true =
    ok (mark g (verify_checkpoint p v fs g.leaf_hashes g.report.event_count g.report))
verify_data p v g fs false = verify_event p g fs

abbrev pub verify_object : Platform → AuditVerifier → Progress → Fields → Bool → Result Progress
verify_object p v g fs true = ok (record g { report = verify_chain_header p v fs g.report })
verify_object p v g fs false = verify_data p v g fs (truthy (get_field (text "checkpoint") fs))

-- One round of the loop. A line with duplicate keys, or with JSON that is no object, raises.
unfoldable pub verify_line : Platform → AuditVerifier → Progress → Line → Result Progress
unfolding verify_event_record verify_chain_header verify_checkpoint
verify_line p v g blank = ok g
verify_line p v g bad_json = ok (record g { report = fault invalid_json g.report })
verify_line p v g (object_line fs) =
    verify_object p v g fs (truthy (get_field (text "chain_meta") fs))
verify_line p v g other_json = err not_an_object
verify_line p v g duplicate_keys = err duplicate_key

unfoldable pub verify_lines : Platform → AuditVerifier → Progress → List Line → Result Progress
unfolding verify_line
verify_lines p v g [] = ok g
verify_lines p v g (l ∷ ls) = verify_line p v g l >>= λ h. verify_lines p v h ls

abbrev pub is_signed : SignedMode → Bool
is_signed signed = true
is_signed _ = false

-- `last_signed_checkpoint_index < last_event_index + 1`, where there is an event.
abbrev pub uncovered : ℕ → Option ℕ → Bool
uncovered zero m = false
uncovered (suc n) none = true
uncovered (suc n) (some m) = ltb m (suc n)

-- `_verify_downgrade_and_truncation`
abbrev pub verify_end : AuditVerifier → Progress → Option Text → VerificationReport
verify_end v g none = g.report
verify_end v g (some pem) =
    fault_unless (not (is_signed g.report.signed_mode && uncovered g.report.event_count g.attested))
      unverifiable_tail (fault_unless (is_signed g.report.signed_mode) downgraded g.report)

-- `expected_head`, as far as it is given.
pub record Head : Type 0 where
  pub index : Option ℤ
  pub hash : Option Text
  pub exp_root : Option Text

abbrev pub last_index : ℕ → ℤ
last_index zero = negsuc 0
last_index (suc n) = pos n

abbrev pub head_index_ok : ℕ → Option ℤ → Bool
head_index_ok n none = true
head_index_ok n (some i) = eq_ℤ i (last_index n)

abbrev pub head_hash_ok : Option Text → Option Text → Bool
head_hash_ok h none = true
head_hash_ok none (some x) = false
head_hash_ok (some h) (some x) = text_eq x h

abbrev pub head_root_test :
    Platform → List Text → Option Text → VerificationReport → VerificationReport
head_root_test p leaves none r = r
head_root_test p leaves (some x) r = elim (merkle_root p leaves) [
  | err e ↦ fault head_leaf r
  | ok root ↦ fault_unless (text_eq x root) head_root r
]

-- `_verify_expected_head`
abbrev pub verify_head : Platform → Progress → Option Head → VerificationReport → VerificationReport
verify_head p g none r = r
verify_head p g (some h) r = head_root_test p g.leaf_hashes h.exp_root (
    fault_unless (head_hash_ok g.last_hash h.hash) head_hash
      (fault_unless (head_index_ok g.report.event_count h.index) head_index r))

unfoldable pub verify_chain :
    Platform → AuditVerifier → List Line → Option Head → Result VerificationReport
unfolding verify_lines
verify_chain p v lines head = verify_lines p v initial_progress lines >>= λ g.
    ok (verify_head p g head (verify_end v g v.public_key))
