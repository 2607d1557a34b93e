-- ===== src/Platform.antt =====
-- What the program calls and does not implement: Unicode normalisation, the URL and base64 parts of
-- the standard library, `json.dumps`, SHA-256 and the two signature schemes. A component that calls
-- one of these takes the record as an argument; a property that relies on one says what it needs.
use raucle.Prelude.{ℕ, Bool, Option, List}
use raucle.Text.{Text}
use raucle.Json.{Value}

abbrev pub Bytes : Type 0
Bytes = List ℕ

pub record Platform : Type 0 where
  -- `unicodedata.normalize("NFC", s)`
  pub nfc : Text → Text
  -- `unquote(urlsplit(s).path)`, or nothing where it raises `ValueError`
  pub url_path : Text → Option Text
  -- `json.dumps(v, sort_keys=False, separators=(",", ":"), …).encode("utf-8")`
  pub dumps : Value → Bytes
  -- the same with `sort_keys=True`
  pub dumps_sorted : Value → Bytes
  -- `hashlib.sha256(data).hexdigest()`
  pub sha256_hex : Bytes → Text
  -- `s.encode("utf-8")`
  pub encode : Text → Bytes
  -- `hashlib.sha256(data).digest()`, and hexadecimal digits: `b.hex()` and `bytes.fromhex(s)`, which may
  -- raise
  pub sha256 : Bytes → Bytes
  pub to_hex : Bytes → Text
  pub from_hex : Text → Option Bytes
  -- base64 in the standard alphabet, and its inverse with padding
  pub b64_std : Bytes → Text
  pub b64d_std : Text → Option Bytes
  -- `base64.b64decode(s, validate=True)`
  pub b64d_strict : Text → Option Bytes
  -- base64 without padding, and its inverse where the text is base64
  pub b64 : Bytes → Text
  pub b64d : Text → Option Bytes
  -- Ed25519 and ML-DSA-65 by key: a public key in PEM, the signature, the signed bytes
  pub verify : Text → Bytes → Bytes → Bool
  pub pq_verify : Text → Bytes → Bytes → Bool
