-- ===== src/Tests/AuditRuns.antt =====
-- A signed chain of two events, and its verifier.
use raucle.Prelude.{
  true, false, ◌≡◌, refl, sym, ap, ◌∙◌, none, some, List, [], ◌∷◌, ◌++◌, length, take,
}
use raucle.Prelude.Int.{pos}
use raucle.Text.{Text, text, text_eq, text_eq_refl, no_surrogates, utf16_key, utf16_le}
use raucle.Json.{Value, obj, Fields, end, field, get_field, py_eq, py_key, same_value}
use raucle.Json.Objects.{text_of, str_value, remove_field}
use raucle.Json.Canon.{reorder_keys}
use raucle.Json.Portable.{encodable, audit_json}
use raucle.Platform.{Platform, Bytes}
use raucle.Result.{Result, ok, err}
use raucle.Audit.Merkle.{decode_leaves, pair_up, reduce, merkle_root}
use raucle.Audit.Sink.{
  Signer, Sink, Line, blank, genesis_hash, write_header, new_sink, emit_checkpoint, append, close,
  empty_sink,
}
use raucle.Audit.Report.{AuditVerifier, VerificationReport, new_report}
use raucle.Audit.Records.{
  recomputed_hash, verify_event_record, verify_signed_header, verify_chain_header,
  verify_checkpoint,
}
use raucle.Audit.Verify.{verify_line, verify_lines, verify_chain}
use raucle.Audit.Life.{Written, opened, appended}
use raucle.Audit.Signed.{Fits}
use raucle.Audit.Linked.{DigestsShow}
use raucle.Audit.Tamper.{PrintsPrevious, head_at}
use raucle.Tests.Toy.{toy, dump_value}

abbrev previous : Value → Text
previous (obj fs) = text_of (get_field (text "prev_hash") fs)
previous _ = []

-- Bytes behind their number.
abbrev framed : Text → Bytes → Bytes
framed s m = length s ∷ (s ++ m)

abbrev unframed : Bytes → Text
unframed [] = []
unframed (n ∷ m) = take n m

take-length : (s m : Text) → take (length s) (s ++ m) ≡ s
take-length [] m = refl
take-length (c ∷ s) m = ap (λ x. c ∷ x) (take-length s m)

-- A platform whose digests and signatures are never empty, and whose objects print the hash that they
-- name before all else.
unfoldable pub log_platform : Platform
unfolding toy
log_platform = record toy {
  dumps = λ v. framed (previous v) (dump_value v);
  sha256_hex = λ m. 104 ∷ m;
  b64_std = λ b. 98 ∷ b;
  b64d_std = λ s. some (drop_one s);
}
  where
    drop_one : Text → Text
    drop_one [] = []
    drop_one (c ∷ s) = s

abbrev pub log_signer : Signer
log_signer = record { key_id = text "log-1"; sign = take 4; hybrid = none }

abbrev pub log_verifier : AuditVerifier
log_verifier = record { public_key = some (text "pem"); pq_public_keys = []; require_pq = false }

pub log_platform-DigestsShow : DigestsShow log_platform
unfolding log_platform
log_platform-DigestsShow m = refl

pub log_platform-PrintsPrevious : PrintsPrevious log_platform
unfolding log_platform
log_platform-PrintsPrevious e f h =
    sym (take-length (previous (obj e)) (dump_value (obj e)))
    ∙ ap unframed h
    ∙ take-length (previous (obj f)) (dump_value (obj f))

pub log_signer-Fits : Fits log_platform log_signer log_verifier
unfolding log_platform toy
log_signer-Fits = record {
  pem = text "pem";
  keyed = refl;
  decodes = λ b. refl;
  shown = λ m. refl;
  verifies = λ m. text_eq_refl (take 4 m);
  digest_shown = λ m. refl;
  second = refl;
}

abbrev event_a : Fields
event_a = field (text "verdict") (str_value (text "allow")) end

abbrev event_b : Fields
event_b = field (text "verdict") (str_value (text "deny")) end

abbrev sink_of : Result Sink → Sink
sink_of (ok s) = s
sink_of (err e) = empty_sink none 0 []

-- The sink after its header, after one event, after two, and after the checkpoint of `close`.
unfoldable pub log_0 : Sink
unfolding log_platform new_sink write_header audit_json
log_0 = sink_of (new_sink log_platform (some log_signer) 0 (text "t0") none)

unfoldable pub log_1 : Sink
unfolding log_platform log_0 append audit_json
log_1 = sink_of (append log_platform log_0 (text "t1") (text "t1") event_a)

unfoldable pub log_2 : Sink
unfolding log_platform log_1 append audit_json
log_2 = sink_of (append log_platform log_1 (text "t2") (text "t2") event_b)

unfoldable pub log_3 : Sink
unfolding log_platform log_2 close emit_checkpoint merkle_root audit_json
log_3 = sink_of (close log_platform log_2 (text "t3"))

pub log_0-opened : new_sink log_platform (some log_signer) 0 (text "t0") none ≡ ok log_0
unfolding toy dump_value log_platform log_0 log_1 log_2 log_3 new_sink write_header append close
    emit_checkpoint merkle_root decode_leaves pair_up reduce audit_json encodable reorder_keys
    no_surrogates utf16_key utf16_le genesis_hash get_field text_eq
log_0-opened = refl

pub log_1-appended : append log_platform log_0 (text "t1") (text "t1") event_a ≡ ok log_1
unfolding toy dump_value log_platform log_0 log_1 log_2 log_3 new_sink write_header append close
    emit_checkpoint merkle_root decode_leaves pair_up reduce audit_json encodable reorder_keys
    no_surrogates utf16_key utf16_le genesis_hash get_field text_eq
log_1-appended = refl

pub log_2-appended : append log_platform log_1 (text "t2") (text "t2") event_b ≡ ok log_2
unfolding toy dump_value log_platform log_0 log_1 log_2 log_3 new_sink write_header append close
    emit_checkpoint merkle_root decode_leaves pair_up reduce audit_json encodable reorder_keys
    no_surrogates utf16_key utf16_le genesis_hash get_field text_eq
log_2-appended = refl

pub log_3-closed : close log_platform log_2 (text "t3") ≡ ok log_3
unfolding toy dump_value log_platform log_0 log_1 log_2 log_3 new_sink write_header append close
    emit_checkpoint merkle_root decode_leaves pair_up reduce audit_json encodable reorder_keys
    no_surrogates utf16_key utf16_le genesis_hash get_field text_eq
log_3-closed = refl

pub log_2-Written : Written log_platform (some log_signer) 0 log_2
log_2-Written =
    appended (text "t2") (text "t2") event_b
      (appended (text "t1") (text "t1") event_a (opened (text "t0") log_0-opened) log_1-appended)
      log_2-appended

abbrev report_of : Result VerificationReport → VerificationReport
report_of (ok r) = r
report_of (err e) = new_report

-- The closed file, read against the index and the hash of its last event, and a copy with a blank line.
unfoldable pub log_report : VerificationReport
unfolding verify_chain log_2 log_3
log_report = report_of (
    verify_chain log_platform log_verifier log_3.file (some (head_at (pos 1) log_2.prev_hash none)))

abbrev pub log_copy : List Line
log_copy = blank ∷ log_3.file

pub log_3-verified :
    verify_chain log_platform log_verifier log_3.file (some (head_at (pos 1) log_2.prev_hash none))
    ≡ ok log_report
unfolding toy dump_value log_platform log_0 log_1 log_2 log_3 new_sink write_header append close
    emit_checkpoint merkle_root decode_leaves pair_up reduce audit_json encodable reorder_keys
    no_surrogates utf16_key utf16_le genesis_hash get_field text_eq verify_chain verify_lines
    verify_line verify_chain_header verify_signed_header verify_checkpoint verify_event_record
    recomputed_hash remove_field py_eq py_key same_value log_report
log_3-verified = refl

pub log_copy-verified :
    verify_chain log_platform log_verifier log_copy (some (head_at (pos 1) log_2.prev_hash none))
    ≡ ok log_report
unfolding toy dump_value log_platform log_0 log_1 log_2 log_3 new_sink write_header append close
    emit_checkpoint merkle_root decode_leaves pair_up reduce audit_json encodable reorder_keys
    no_surrogates utf16_key utf16_le genesis_hash get_field text_eq verify_chain verify_lines
    verify_line verify_chain_header verify_signed_header verify_checkpoint verify_event_record
    recomputed_hash remove_field py_eq py_key same_value log_report
log_copy-verified = refl

pub log_report-valid : log_report.valid ≡ true
unfolding toy dump_value log_platform log_0 log_1 log_2 log_3 new_sink write_header append close
    emit_checkpoint merkle_root decode_leaves pair_up reduce audit_json encodable reorder_keys
    no_surrogates utf16_key utf16_le genesis_hash get_field text_eq verify_chain verify_lines
    verify_line verify_chain_header verify_signed_header verify_checkpoint verify_event_record
    recomputed_hash remove_field py_eq py_key same_value log_report
log_report-valid = refl
