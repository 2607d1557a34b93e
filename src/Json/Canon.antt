-- ===== src/Json/Canon.antt =====
-- `_reject_floats`, `reorder_keys_utf16` and `_canonical_json`: the bytes that are signed.
use raucle.Prelude.{◌-◌, ◌^◌, ◌&&◌, if◌then◌else◌}
use raucle.Prelude.Int.{ℤ, pos, negsuc, leb_ℤ}
use raucle.Text.{Text, no_surrogates, utf16_le}
use raucle.Json.{
  Scalar, null, bool, int, float, str, Value, scalar, arr, obj, Items, nil, cons, Fields, end,
  field,
}
use raucle.Platform.{Platform, Bytes}
use raucle.Result.{Result, ok, err, float_in_token, unsafe_integer, lone_surrogate, ◌>>◌, require}

abbrev max_safe_int : ℤ
max_safe_int = pos (2 ^ 53 - 1)

abbrev min_safe_int : ℤ
min_safe_int = negsuc (2 ^ 53 - 2)

abbrev reject_scalar : Scalar → Result (Unit {0})
reject_scalar null = ok tt
reject_scalar (bool b) = ok tt
reject_scalar (int n) = require (leb_ℤ min_safe_int n && leb_ℤ n max_safe_int) unsafe_integer
reject_scalar (float x) = err float_in_token
reject_scalar (str s) = require (no_surrogates s) lone_surrogate

unfoldable mutual
  pub reject_floats : Value → Result (Unit {0})
  reject_floats (scalar s) = reject_scalar s
  reject_floats (arr xs) = reject_items xs
  reject_floats (obj fs) = reject_fields fs

  pub reject_items : Items → Result (Unit {0})
  reject_items nil = ok tt
  reject_items (cons v xs) = reject_floats v >> reject_items xs

  pub reject_fields : Fields → Result (Unit {0})
  reject_fields end = ok tt
  reject_fields (field k v fs) =
      require (no_surrogates k) lone_surrogate >> (reject_floats v >> reject_fields fs)

-- One step of `sorted(obj, key=utf16_key)`.
unfoldable pub insert_field : Text → Value → Fields → Fields
insert_field k v end = field k v end
insert_field k v (field j w fs) =
    if utf16_le k j then field k v (field j w fs) else field j w (insert_field k v fs)

unfoldable mutual
  unfolding insert_field

  pub reorder_keys : Value → Value
  reorder_keys (scalar s) = scalar s
  reorder_keys (arr xs) = arr (reorder_items xs)
  reorder_keys (obj fs) = obj (reorder_fields fs)

  pub reorder_items : Items → Items
  reorder_items nil = nil
  reorder_items (cons v xs) = cons (reorder_keys v) (reorder_items xs)

  pub reorder_fields : Fields → Fields
  reorder_fields end = end
  reorder_fields (field k v fs) = insert_field k (reorder_keys v) (reorder_fields fs)

unfoldable pub canonical_json : Platform → Value → Result Bytes
unfolding reject_floats reorder_keys
canonical_json p v = do reject_floats v; ok (p.dumps (reorder_keys v))
