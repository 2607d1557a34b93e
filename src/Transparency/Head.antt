-- ===== src/Transparency/Head.antt =====
-- `ChainHead` and `compute_chain_head`.
use raucle.Prelude.{Bool, true, false, Option, none, some, List, [], ◌∷◌}
use raucle.Prelude.Int.{ℤ, pos, negsuc}
use raucle.Text.{Text, text}
use raucle.Json.{bool, int, Value, scalar, Fields, get_field}
use raucle.Json.Objects.{is_text}
use raucle.Platform.{Platform}
use raucle.Result.{
  Result, ok, err, ◌>>=◌, not_an_object, duplicate_key, malformed_line, tampered_event,
  bad_event_index, no_events,
}
use raucle.Audit.Sink.{Line, blank, bad_json, object_line, other_json, duplicate_keys, is_metadata}
use raucle.Audit.Records.{recomputed_hash}

pub record ChainHead : Type 0 where
  pub index : ℤ
  pub hash : Text

-- The local variables of the loop.
pub record Scan : Type 0 where
  pub head_hash : Option Text
  pub head_index : ℤ

abbrev pub nothing_scanned : Scan
nothing_scanned = record { head_hash = none; head_index = negsuc 0 }

-- `int(rec.get("index", head_index))`, of an integer or a bool.
abbrev pub index_of : Option Value → ℤ → Result ℤ
index_of none i = ok i
index_of (some (scalar (int n))) i = ok n
index_of (some (scalar (bool true))) i = ok (pos 1)
index_of (some (scalar (bool false))) i = ok (pos 0)
index_of (some v) i = err bad_event_index

abbrev pub scan_hashed : Scan → Fields → Text → Bool → Result Scan
scan_hashed s fs h false = err tampered_event
scan_hashed s fs h true = index_of (get_field (text "index") fs) s.head_index >>= λ i.
    ok (record { head_hash = some h; head_index = i })

abbrev pub scan_object : Platform → Scan → Fields → Bool → Result Scan
scan_object p s fs true = ok s
scan_object p s fs false =
    recomputed_hash p fs >>= λ h. scan_hashed s fs h (is_text (get_field (text "hash") fs) h)

-- One round of the loop.
unfoldable pub scan_line : Platform → Scan → Line → Result Scan
unfolding recomputed_hash
scan_line p s blank = ok s
scan_line p s bad_json = err malformed_line
scan_line p s (object_line fs) = scan_object p s fs (is_metadata fs)
scan_line p s other_json = err not_an_object
scan_line p s duplicate_keys = err duplicate_key

unfoldable pub scan_lines : Platform → Scan → List Line → Result Scan
unfolding scan_line
scan_lines p s [] = ok s
scan_lines p s (l ∷ ls) = scan_line p s l >>= λ t. scan_lines p t ls

abbrev pub head_of : ℤ → Option Text → Result ChainHead
head_of i none = err no_events
head_of i (some h) = ok (record { index = i; hash = h })

unfoldable pub compute_chain_head : Platform → List Line → Result ChainHead
unfolding scan_lines
compute_chain_head p ls = scan_lines p nothing_scanned ls >>= λ s. head_of s.head_index s.head_hash
