-- ===== src/Ledger/Register.antt =====
-- `register` and the parent resolver.
use raucle.Prelude.{ℕ, not, Option, none, some, [], ◌∷◌, ◌++◌, or_default}
use raucle.Text.{Text, text, is_empty}
use raucle.Json.{Value, obj, Fields}
use raucle.Json.Objects.{object, str_value}
use raucle.Platform.{Platform}
use raucle.Dict.{get}
use raucle.Result.{
  Result, ok, err, ◌>>=◌, ◌>>◌, require, unsigned_record, no_key, bad_record_signature,
}
use raucle.Token.{Capability}
use raucle.Gate.{verify_signature}
use raucle.Wire.{to_dict, dict_signature, from_dict}
use raucle.Ledger.Defs.{Row, delegation, Disk, DelegationLedger, ensure_loaded, add_row}
use raucle.Ledger.Holds.{hold_check}

-- The key of the call, or the ledger's own.
abbrev pub key_test : Platform → Capability → Option Text → Result (Unit {0})
key_test p c none = err no_key
key_test p c (some pem) = require (verify_signature p c pem) bad_record_signature

abbrev row_value : Fields → Text → Value
row_value t agent =
    obj (object ((text "capability", obj t) ∷ (text "delegated_to_agent", str_value agent) ∷ []))

-- The hash of a row before its hash is added.
unfoldable pub row_hash : Platform → Fields → Text → Text
row_hash p t agent = p.sha256_hex (p.dumps_sorted (row_value t agent))

abbrev pub write_row : Disk → ℕ → Row → Disk
write_row d now r = record d {
  rows = some (or_default d.rows [] ++ delegation r ∷ []);
  mtime = now;
}

-- What a registration leaves: the hash that it returns, the ledger and the files.
pub record Registered : Type 0 where
  pub record_hash : Text
  pub ledger : DelegationLedger
  pub disk : Disk

abbrev pub settle_row : DelegationLedger × Disk → ℕ → Row → Registered
settle_row (l, d) now r = record {
  record_hash = r.record_hash;
  ledger = record (add_row l r) { loaded_at = some now };
  disk = write_row d now r;
}

-- `register`; the key is a public key in PEM, `now` the modification time after the write, and `stamp` the
-- time stamp of a revocation.
unfoldable pub register :
    Platform
    → DelegationLedger
    → Disk
    → ℕ
    → Text
    → Option Text
    → Text
    → Capability
    → Result Registered
unfolding row_hash hold_check
register p l d now stamp key agent c = to_dict p c >>= λ t.
    require (not (is_empty (dict_signature t))) unsigned_record
    >> (key_test p c key
        >> (hold_check l d t agent stamp >>= λ s. ok (
            settle_row s now (record {
              token = t;
              delegated_to_agent = agent;
              record_hash = row_hash p t agent;
            }))))

-- `Capability.from_dict`, and nothing where it raises.
abbrev pub parsed : Result Capability → Option Capability
parsed (ok c) = some c
parsed (err e) = none

abbrev pub parse_row : Option Row → Option Capability
parse_row none = none
parse_row (some r) = parsed (from_dict r.token)

abbrev pub resolve_in : DelegationLedger → Disk → Text → Option Row → Result (Option Capability)
resolve_in l d i (some r) = ok (parse_row (some r))
resolve_in l d i none = ensure_loaded l d >>= λ m. ok (parse_row (get i m.records))

-- `_resolve`, the function that `resolver` returns.
unfoldable pub resolve : DelegationLedger → Disk → Text → Result (Option Capability)
unfolding ensure_loaded from_dict
resolve l d i = resolve_in l d i (get i l.records)
