-- ===== src/Tests/AuditWitnesses.antt =====
-- The theorems about the audit log, at the chain of two events.
use raucle.Prelude.{◌≡◌, ◌⊎◌, some, none, refl, List, [], ◌∷◌}
use raucle.Prelude.Int.{pos}
use raucle.Text.{Text, text}
use raucle.Result.{ok}
use raucle.Audit.Merkle.{merkle_root, decode_leaves, pair_up, reduce}
use raucle.Audit.Rounds.{Climbs, merkle_root-Climbs}
use raucle.Platform.{Bytes}
use raucle.Tests.Toy.{toy}
use raucle.Audit.Sink.{new_sink}
use raucle.Audit.Report.{VerificationReport}
use raucle.Audit.Verify.{verify_chain}
use raucle.Audit.Resume.{resume-Written}
use raucle.Audit.Honest.{Clean, close-verifies}
use raucle.Audit.Linked.{events, Chained}
use raucle.Audit.Reading.{verify_chain-Chained}
use raucle.Audit.Tamper.{head_at, Alike, Collision, verify_chain-tamper_evident}
use raucle.Tests.AuditRuns.{
  log_platform, log_signer, log_verifier, log_platform-DigestsShow, log_platform-PrintsPrevious,
  log_signer-Fits, log_2, log_3, log_2-Written, log_3-closed, log_report, log_copy, log_3-verified,
  log_copy-verified, log_report-valid,
}

resume-Written_example :
    new_sink log_platform (some log_signer) 0 (text "t9") (some log_2.file) ≡ ok log_2
resume-Written_example =
    resume-Written log_platform (some log_signer) 0 log_2 (text "t9") log_2-Written

close-verifies_example :
    (r : VerificationReport) × (verify_chain log_platform log_verifier log_3.file none ≡ ok r)
    × Clean r log_2.next_index
close-verifies_example =
    close-verifies log_platform log_signer 0 log_verifier log_signer-Fits log_2 log_3 (text "t3")
      log_2-Written log_3-closed

verify_chain-Chained_example : (h : Text) × Chained log_platform (events log_3.file) h
verify_chain-Chained_example =
    verify_chain-Chained log_platform log_verifier log_platform-DigestsShow log_3.file
      (some (head_at (pos 1) log_2.prev_hash none)) log_report log_3-verified log_report-valid

verify_chain-tamper_evident_example :
    Alike log_platform (events log_3.file) (events log_copy)
    ⊎ Collision log_platform (events log_3.file) (events log_copy)
verify_chain-tamper_evident_example =
    verify_chain-tamper_evident log_platform log_verifier log_verifier log_platform-DigestsShow
      log_platform-PrintsPrevious log_3.file log_copy (pos 1) log_2.prev_hash none none log_report
      log_report log_3-verified log_report-valid log_copy-verified log_report-valid

three_leaves-root : merkle_root toy (text "a" ∷ text "b" ∷ text "c" ∷ []) ≡ ok (text "abcc")
unfolding toy merkle_root decode_leaves pair_up reduce
three_leaves-root = refl

merkle_root-Climbs_example :
    (level : List Bytes) × (decode_leaves toy (text "a" ∷ text "b" ∷ text "c" ∷ []) ≡ ok level)
    × (r : Bytes) × Climbs toy level r
    × (text "abcc" ≡ toy.to_hex r)
merkle_root-Climbs_example =
    merkle_root-Climbs toy (text "a") (text "b" ∷ text "c" ∷ []) (text "abcc") three_leaves-root
