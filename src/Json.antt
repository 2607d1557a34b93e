-- ===== src/Json.antt =====
-- JSON values as Python holds them: the call's arguments and the token's body.
mod Defs
mod Laws
pub mod Canon
pub mod Objects
pub mod Portable
pub mod Members
unfoldable pub use Defs.{same_value, py_key, py_eq, contains, flatten_scalars, get_field}
pub use Defs.{
  Float, nan, inf, neg_inf, finite, Scalar, null, bool, int, float, str, Value, scalar, arr, obj,
  Items, nil, cons, Fields, end, field, has_field, is_number, above, below,
}
pub use Laws.*
