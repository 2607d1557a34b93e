-- ===== src/Ledger/Defs.antt =====
-- The state of a `DelegationLedger` and the files it works on, `_load` and `_ensure_loaded`.
use raucle.Prelude.{
  ℕ, ◌==◌, Bool, true, false, Option, none, some, List, [], ◌∷◌, ◌++◌, if◌then◌else◌,
}
use raucle.Text.{Text}
use raucle.Dict.{Dict, put}
use raucle.Result.{Result, ok, err, ◌>>=◌, no_ledger, bad_ledger_line}
use raucle.Json.{Fields}
use raucle.Wire.{dict_token_id}

-- A delegation row; its token is the object of `to_dict`, as it stands in the file.
pub record Row : Type 0 where
  pub token : Fields
  pub delegated_to_agent : Text
  pub record_hash : Text

pub data MarkerKind : Type 0 where
  containment_hold_active containment_resume other_kind : MarkerKind

-- A control row.
pub record Marker : Type 0 where
  pub kind : MarkerKind
  pub scope : Text
  pub scope_id : Text
  pub revocations_path : Text
  pub target_path : Text
  pub actor : Text
  pub receipt_id : Text

-- A line of the ledger's file; the last one is no JSON.
pub data LedgerLine : Type 0 where
  empty_line : LedgerLine
  delegation : Row → LedgerLine
  control : Marker → LedgerLine
  garbage : LedgerLine

-- A row of a revocations file, without its fixed texts.
pub record Revocation : Type 0 where
  pub token_id : Text
  pub actor : Text
  pub timestamp : Text
  pub hold_receipt_id : Text

-- The ledger's file, if it exists, its modification time, and the revocations files, of which those
-- can be written that `writable` says.
pub record Disk : Type 0 where
  pub rows : Option (List LedgerLine)
  pub mtime : ℕ
  pub revocations : Dict (List Revocation)
  pub writable : Text → Bool

pub record DelegationLedger : Type 0 where
  pub records : Dict Row
  pub control_rows : List Marker
  pub loaded_at : Option ℕ

abbrev pub no_rows : DelegationLedger
no_rows = record { records = []; control_rows = []; loaded_at = none }

abbrev pub add_row : DelegationLedger → Row → DelegationLedger
add_row l r = record l { records = put (dict_token_id r.token) r l.records }

-- One round of the loop of `_load`.
abbrev pub load_line : DelegationLedger → LedgerLine → Result DelegationLedger
load_line l empty_line = ok l
load_line l (delegation r) = ok (add_row l r)
load_line l (control m) = ok (record l { control_rows = l.control_rows ++ m ∷ [] })
load_line l garbage = err bad_ledger_line

unfoldable pub load_lines : DelegationLedger → List LedgerLine → Result DelegationLedger
load_lines l [] = ok l
load_lines l (x ∷ xs) = load_line l x >>= λ m. load_lines m xs

abbrev pub load_rows : ℕ → Option (List LedgerLine) → Result DelegationLedger
load_rows at none = err no_ledger
load_rows at (some xs) = load_lines no_rows xs >>= λ l. ok (record l { loaded_at = some at })

-- `_load`, which raises where there is no file.
unfoldable pub load : Disk → Result DelegationLedger
unfolding load_lines
load d = load_rows d.mtime d.rows

-- `self.path.stat().st_mtime if self.path.exists() else None`
abbrev pub file_time : Option (List LedgerLine) → ℕ → Option ℕ
file_time none at = none
file_time (some xs) at = some at

abbrev pub same_time : Option ℕ → Option ℕ → Bool
same_time none none = true
same_time (some a) (some b) = a == b
same_time _ _ = false

-- `_ensure_loaded`
unfoldable pub ensure_loaded : DelegationLedger → Disk → Result DelegationLedger
unfolding load
ensure_loaded l d = if same_time (file_time d.rows d.mtime) l.loaded_at then ok l else load d

abbrev open_rows : Disk → Option (List LedgerLine) → Result DelegationLedger
open_rows d none = ok no_rows
open_rows d (some xs) = load d

-- `DelegationLedger.__init__`
unfoldable pub open_ledger : Disk → Result DelegationLedger
unfolding load
open_ledger d = open_rows d d.rows
