-- ===== src/Audit/Sink.antt =====
-- `HashChainSink`: the writer of the chain.
use raucle.Prelude.{
  ℕ, zero, suc, ◌%◌, ◌==◌, Bool, true, false, Option, none, some, List, [], ◌∷◌, ◌++◌,
}
use raucle.Prelude.Int.{pos}
use raucle.Text.{Text, text}
use raucle.Json.{int, Value, scalar, obj, Fields, get_field}
use raucle.Json.Objects.{object, truthy, text_of, str_value, int_value, bool_value}
use raucle.Json.Portable.{audit_json}
use raucle.Platform.{Platform, Bytes}
use raucle.Result.{Result, ok, err, ◌>>=◌, not_an_object, duplicate_key}
use raucle.Audit.Merkle.{merkle_root}

-- The second key of a `HybridRecordSigner` (raucle/pq.py).
pub record PqSigner : Type 0 where
  pub pq_key_id : Text
  pub pq_sign : Bytes → Bytes

-- An `Ed25519Signer`, or a `HybridRecordSigner` round one.
pub record Signer : Type 0 where
  pub key_id : Text
  pub sign : Bytes → Bytes
  pub hybrid : Option PqSigner

-- A line of the file as the readers meet it: the last one is JSON with duplicate keys, the one before
-- it JSON that is no object.
pub data Line : Type 0 where
  blank bad_json : Line
  object_line : Fields → Line
  other_json duplicate_keys : Line

pub record Sink : Type 0 where
  pub signer : Option Signer
  pub checkpoint_every : ℕ
  pub leaf_hashes : List Text
  pub next_index : ℕ
  pub prev_hash : Text
  pub file : List Line

zeros : ℕ → Text
zeros zero = []
zeros (suc n) = b'0' ∷ zeros n

-- `_GENESIS_HASH`
unfoldable pub genesis_hash : Text
unfolding zeros
genesis_hash = zeros 64

-- The members that a signature adds to a record (`sign_record`, or the `signature` alone).
abbrev pub second_signature : Platform → Bytes → Option PqSigner → List (Text × Value)
second_signature p m none = []
second_signature p m (some k) =
    (text "pq_key_id", str_value k.pq_key_id)
    ∷ (text "pq_signature", str_value (p.b64_std (k.pq_sign m)))
    ∷ []

abbrev pub signature_fields : Platform → Signer → Bytes → List (Text × Value)
signature_fields p s m =
    (text "signature", str_value (p.b64_std (s.sign m))) ∷ second_signature p m s.hybrid

-- The header before it is signed.
abbrev pub header_body : Bool → Text → List (Text × Value)
header_body signed created_at =
    (text "chain_meta", bool_value true)
    ∷ (text "version", int_value (pos 1))
    ∷ (text "signed", bool_value signed)
    ∷ (text "created_at", str_value created_at)
    ∷ []

abbrev pub signed_body : Signer → Text → List (Text × Value)
signed_body s created_at = header_body true created_at ++ (text "key_id", str_value s.key_id) ∷ []

abbrev pub header_line : Platform → Option Signer → Text → Result Fields
header_line p none created_at = ok (object (header_body false created_at))
header_line p (some s) created_at = audit_json p (obj (object (signed_body s created_at))) >>= λ m.
    ok (object (signed_body s created_at ++ signature_fields p s m))

-- `_write_chain_header_unsafe`
unfoldable pub write_header : Platform → Sink → Text → Result Sink
write_header p s created_at = header_line p s.signer created_at >>= λ fs.
    ok (record s { file = s.file ++ object_line fs ∷ [] })

-- A record that the tail of the chain does not depend on.
abbrev pub is_metadata : Fields → Bool
is_metadata fs = elim (truthy (get_field (text "checkpoint") fs)) [
  | true ↦ true
  | false ↦ truthy (get_field (text "chain_meta") fs)
]

-- `rec.get("index", -1) + 1`, of an index that a sink wrote.
abbrev index_after : Option Value → ℕ
index_after (some (scalar (int (pos n)))) = suc n
index_after _ = 0

-- `rec.get("hash", self._prev_hash)`
abbrev hash_or : Option Value → Text → Text
hash_or none prev = prev
hash_or (some v) prev = text_of (some v)

abbrev pub resume_event : Sink → Fields → Sink
resume_event s fs = record s {
  prev_hash = hash_or (get_field (text "hash") fs) s.prev_hash;
  next_index = index_after (get_field (text "index") fs);
  leaf_hashes = s.leaf_hashes ++ text_of (get_field (text "hash") fs) ∷ [];
}

abbrev pub resume_object : Sink → Fields → Bool → Sink
resume_object s fs true = s
resume_object s fs false = resume_event s fs

-- One round of the loop of `_resume`.
abbrev pub resume_line : Sink → Line → Result Sink
resume_line s blank = ok s
resume_line s bad_json = ok s
resume_line s (object_line fs) = ok (resume_object s fs (is_metadata fs))
resume_line s other_json = err not_an_object
resume_line s duplicate_keys = err duplicate_key

unfoldable pub resume_lines : Sink → List Line → Result Sink
resume_lines s [] = ok s
resume_lines s (l ∷ ls) = resume_line s l >>= λ t. resume_lines t ls

abbrev pub empty_sink : Option Signer → ℕ → List Line → Sink
empty_sink signer every file = record {
  signer = signer;
  checkpoint_every = every;
  leaf_hashes = [];
  next_index = 0;
  prev_hash = genesis_hash;
  file = file;
}

-- `HashChainSink.__init__` on a path: a file that is there is resumed, and a new one gets a header.
unfoldable pub new_sink : Platform → Option Signer → ℕ → Text → Option (List Line) → Result Sink
unfolding write_header resume_lines
new_sink p signer every created_at none = write_header p (empty_sink signer every []) created_at
new_sink p signer every created_at (some lines) = resume_lines (empty_sink signer every lines) lines

-- An event record before its hash is added.
abbrev pub event_body : ℕ → Text → Text → Fields → List (Text × Value)
event_body n timestamp prev event =
    (text "index", int_value (pos n))
    ∷ (text "timestamp", str_value timestamp)
    ∷ (text "prev_hash", str_value prev)
    ∷ (text "event", obj event)
    ∷ []

abbrev pub event_record : ℕ → Text → Text → Fields → Text → Fields
event_record n timestamp prev event hash =
    object (event_body n timestamp prev event ++ (text "hash", str_value hash) ∷ [])

-- The signed part of a checkpoint.
abbrev pub checkpoint_body : ℕ → Text → Text → List (Text × Value)
checkpoint_body n root key_id =
    (text "index", int_value (pos n))
    ∷ (text "merkle_root", str_value root)
    ∷ (text "key_id", str_value key_id)
    ∷ []

abbrev pub checkpoint_record : Platform → Signer → ℕ → Text → Text → Bytes → Fields
checkpoint_record p s n root timestamp m = object (
    (text "checkpoint", bool_value true) ∷ checkpoint_body n root s.key_id
    ++ (text "timestamp", str_value timestamp) ∷ signature_fields p s m)

abbrev pub write_line : Sink → Fields → Sink
write_line s fs = record s { file = s.file ++ object_line fs ∷ [] }

abbrev pub checkpoint_by : Platform → Sink → Signer → Text → Result Sink
checkpoint_by p s k timestamp = merkle_root p s.leaf_hashes >>= λ root.
    audit_json p (obj (object (checkpoint_body s.next_index root k.key_id))) >>= λ m.
    ok (write_line s (checkpoint_record p k s.next_index root timestamp m))

abbrev pub checkpoint_if : Platform → Sink → Text → Option Signer → List Text → Result Sink
checkpoint_if p s timestamp none leaves = ok s
checkpoint_if p s timestamp (some k) [] = ok s
checkpoint_if p s timestamp (some k) (h ∷ hs) = checkpoint_by p s k timestamp

-- `_emit_checkpoint_locked`, which `emit_checkpoint` and `close` call.
unfoldable pub emit_checkpoint : Platform → Sink → Text → Result Sink
emit_checkpoint p s timestamp = checkpoint_if p s timestamp s.signer s.leaf_hashes

-- The sink after the line of an event.
abbrev pub chained : Sink → Text → Fields → Text → Sink
chained s timestamp event hash = record s {
  leaf_hashes = s.leaf_hashes ++ hash ∷ [];
  next_index = suc s.next_index;
  prev_hash = hash;
  file = s.file ++ object_line (event_record s.next_index timestamp s.prev_hash event hash) ∷ [];
}

-- The event is the last of its batch.
abbrev pub is_due : ℕ → ℕ → Bool
is_due zero n = false
is_due (suc every) n = n % suc every == 0

abbrev pub checkpoint_when : Platform → Sink → Text → Bool → Result Sink
checkpoint_when p s timestamp true = emit_checkpoint p s timestamp
checkpoint_when p s timestamp false = ok s

-- `append`; the second time is the checkpoint's, if one is due.
unfoldable pub append : Platform → Sink → Text → Text → Fields → Result Sink
unfolding emit_checkpoint
append p s timestamp later event =
    audit_json p (obj (object (event_body s.next_index timestamp s.prev_hash event))) >>= λ m.
    (let t = chained s timestamp event (p.sha256_hex m) in
      checkpoint_when p t later (is_due s.checkpoint_every t.next_index))

-- `close`
unfoldable pub close : Platform → Sink → Text → Result Sink
unfolding emit_checkpoint
close p s timestamp = emit_checkpoint p s timestamp
