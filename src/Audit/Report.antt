-- ===== src/Audit/Report.antt =====
-- `VerificationReport` and the state of `AuditVerifier`.
use raucle.Prelude.{ℕ, Bool, true, false, Option, none, some, List, [], ◌∷◌, ◌++◌, ◌<|>◌}
use raucle.Text.{Text}
use raucle.Json.{null, Value, scalar}
use raucle.Dict.{Dict}

-- What the messages of a report complain of.
pub data AuditError : Type 0 where
  invalid_json index_mismatch prev_hash_mismatch hash_mismatch : AuditError
  duplicate_header unsigned_header no_public_key header_signature header_no_pq header_pq :
      AuditError
  checkpoint_in_unsigned checkpoint_index bad_leaf root_mismatch foreign_key : AuditError
  checkpoint_no_pq checkpoint_pq checkpoint_signature : AuditError
  downgraded unverifiable_tail : AuditError
  head_index head_hash head_leaf head_root : AuditError

pub data SignedMode : Type 0 where
  unknown signed unsigned unverifiable : SignedMode

pub record VerificationReport : Type 0 where
  pub valid : Bool
  pub event_count : ℕ
  pub checkpoint_count : ℕ
  pub valid_signatures : ℕ
  pub invalid_signatures : ℕ
  pub first_invalid_index : Option Value
  pub errors : List AuditError
  pub signed_mode : SignedMode
  pub chain_key_id : Text

abbrev pub new_report : VerificationReport
new_report = record {
  valid = true;
  event_count = 0;
  checkpoint_count = 0;
  valid_signatures = 0;
  invalid_signatures = 0;
  first_invalid_index = none;
  errors = [];
  signed_mode = unknown;
  chain_key_id = [];
}

-- `report.errors.append(…)` and `report.valid = False`
abbrev pub fault : AuditError → VerificationReport → VerificationReport
fault e r = record r { valid = false; errors = r.errors ++ e ∷ [] }

-- An index of `None` is no index.
abbrev pub as_index : Value → Option Value
as_index (scalar null) = none
as_index v = some v

-- A fault of an event record, which also notes the first bad index.
abbrev pub fault_at : Value → AuditError → VerificationReport → VerificationReport
fault_at i e r = record r {
  valid = false;
  errors = r.errors ++ e ∷ [];
  first_invalid_index = r.first_invalid_index <|> as_index i;
}

abbrev pub fault_unless : Bool → AuditError → VerificationReport → VerificationReport
fault_unless true e r = r
fault_unless false e r = fault e r

abbrev pub fault_at_unless : Bool → Value → AuditError → VerificationReport → VerificationReport
fault_at_unless true i e r = r
fault_at_unless false i e r = fault_at i e r

-- A key that could not be read is held as `none`.
pub record AuditVerifier : Type 0 where
  pub public_key : Option Text
  pub pq_public_keys : Dict (Option Text)
  pub require_pq : Bool
