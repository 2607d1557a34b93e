-- ===== src/Json/Portable.antt =====
-- `_canonical_json` of raucle/audit.py: floats are allowed, if JSON has a text for them.
use raucle.Text.{no_surrogates}
use raucle.Json.Defs.{
  finite, Scalar, float, str, Value, scalar, arr, obj, Items, nil, cons, Fields, end, field,
}
use raucle.Json.Canon.{reorder_keys}
use raucle.Platform.{Platform, Bytes}
use raucle.Result.{Result, ok, err, non_finite, lone_surrogate, ◌>>◌, require}

abbrev encode_scalar : Scalar → Result (Unit {0})
encode_scalar (float (finite n k)) = ok tt
encode_scalar (float x) = err non_finite
encode_scalar (str s) = require (no_surrogates s) lone_surrogate
encode_scalar _ = ok tt

-- The values that `reorder_keys_utf16`, `json.dumps` with `allow_nan=False` and `encode` all accept.
unfoldable mutual
  pub encodable : Value → Result (Unit {0})
  encodable (scalar s) = encode_scalar s
  encodable (arr xs) = encodable_items xs
  encodable (obj fs) = encodable_fields fs

  pub encodable_items : Items → Result (Unit {0})
  encodable_items nil = ok tt
  encodable_items (cons v xs) = encodable v >> encodable_items xs

  pub encodable_fields : Fields → Result (Unit {0})
  encodable_fields end = ok tt
  encodable_fields (field k v fs) =
      require (no_surrogates k) lone_surrogate >> (encodable v >> encodable_fields fs)

unfoldable pub audit_json : Platform → Value → Result Bytes
unfolding encodable reorder_keys
audit_json p v = encodable v >> ok (p.dumps (reorder_keys v))
