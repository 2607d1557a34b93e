-- ===== src/Tests/TransparencyWitnesses.antt =====
-- The theorems about anchoring, at the chain of two events and a statement about its head.
use raucle.Prelude.{◌≡◌, refl, some, [], ◌∷◌, true}
use raucle.Prelude.Int.{pos}
use raucle.Text.{text, text_eq, no_surrogates, utf16_key, utf16_le}
use raucle.Json.{Fields, obj, get_field, py_eq, py_key, same_value}
use raucle.Json.Objects.{object, str_value, int_value}
use raucle.Json.Canon.{reorder_keys}
use raucle.Json.Portable.{encodable, audit_json}
use raucle.Result.{ok}
use raucle.Audit.Sink.{new_sink, write_header, append, genesis_hash}
use raucle.Transparency.Head.{ChainHead, compute_chain_head}
use raucle.Transparency.Anchor.{
  TransparencyCheck, Anchored, check_anchor, transparency_anchored, verify_transparency_anchor,
  verify_transparency_anchor-Anchored,
}
use raucle.Transparency.Written.{compute_chain_head-Written}
use raucle.Tests.Toy.{toy, dump_value}
use raucle.Tests.AuditRuns.{log_platform, log_signer, log_0, log_1, log_2, log_2-Written}

two_events : log_2.next_index ≡ 2
unfolding toy dump_value log_platform log_0 log_1 log_2 new_sink write_header append audit_json
    encodable reorder_keys no_surrogates utf16_key utf16_le genesis_hash get_field text_eq
two_events = refl

compute_chain_head-Written_example :
    compute_chain_head log_platform log_2.file
    ≡ ok (record { index = pos 1; hash = log_2.prev_hash })
compute_chain_head-Written_example =
    compute_chain_head-Written log_platform (some log_signer) 0 1 log_2 log_2-Written two_events

abbrev head : ChainHead
head = record { index = pos 1; hash = log_2.prev_hash }

abbrev statement : Fields
statement = object (
    (
      text "chain_head",
      obj (
          object
            ((text "index", int_value (pos 1)) ∷ (text "hash", str_value log_2.prev_hash) ∷ [])),
    )
    ∷ (text "cose", str_value (text "sig"))
    ∷ [])

abbrev report : TransparencyCheck
report = check_anchor head (some statement) (some (text "main")) true

scanned : compute_chain_head log_platform log_2.file ≡ ok head
scanned =
    compute_chain_head-Written log_platform (some log_signer) 0 1 log_2 log_2-Written two_events

anchor-run :
    verify_transparency_anchor log_platform log_2.file (some statement) (some (text "main")) true
    ≡ ok report
unfolding verify_transparency_anchor
anchor-run = rw scanned refl

anchored-run : report.status ≡ transparency_anchored
unfolding toy dump_value log_platform log_0 log_1 log_2 new_sink write_header append audit_json
    encodable reorder_keys no_surrogates utf16_key utf16_le genesis_hash get_field text_eq py_eq
    py_key same_value
anchored-run = refl

verify_transparency_anchor-Anchored_example :
    (signed : Fields) × (some statement ≡ some signed)
    × (compute_chain_head log_platform log_2.file ≡ ok report.chain_head)
    × Anchored report.chain_head signed (some (text "main"))
verify_transparency_anchor-Anchored_example =
    verify_transparency_anchor-Anchored log_platform log_2.file (some statement)
      (some (text "main")) true report anchor-run anchored-run
