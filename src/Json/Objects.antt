-- ===== src/Json/Objects.antt =====
-- JSON objects as records are written and read: literals, `dict.pop`, truth values, and the comparison of
-- a member with a text or an integer.
use raucle.Prelude.{Bool, true, false, not, Option, none, some, List, [], ◌∷◌, if◌then◌else◌}
use raucle.Prelude.Int.{ℤ, pos, eq_ℤ}
use raucle.Text.{Text, text_eq, is_empty}
use raucle.Json.Defs.{
  finite, Scalar, null, bool, int, float, str, Value, scalar, arr, obj, nil, cons, Fields, end,
  field, py_eq,
}

-- An object literal.
abbrev pub object : List (Text × Value) → Fields
object [] = end
object ((k, v) ∷ d) = field k v (object d)

-- The object without the key.
unfoldable pub remove_field : Text → Fields → Fields
remove_field k end = end
remove_field k (field j v fs) =
    let rest = remove_field k fs in if text_eq j k then rest else field j v rest

abbrev is_zero : ℤ → Bool
is_zero n = eq_ℤ n (pos 0)

abbrev truthy_scalar : Scalar → Bool
truthy_scalar null = false
truthy_scalar (bool b) = b
truthy_scalar (int n) = not (is_zero n)
truthy_scalar (float (finite n k)) = not (is_zero n)
truthy_scalar (float x) = true
truthy_scalar (str s) = not (is_empty s)

-- `if d.get(k)`
abbrev pub truthy : Option Value → Bool
truthy none = false
truthy (some (scalar s)) = truthy_scalar s
truthy (some (arr nil)) = false
truthy (some (arr (cons v vs))) = true
truthy (some (obj end)) = false
truthy (some (obj (field k v fs))) = true

-- `d.get(k) == t` for a text `t`.
abbrev pub is_text : Option Value → Text → Bool
is_text (some (scalar (str s))) t = text_eq s t
is_text _ t = false

-- `d.get(k) == n` for an integer `n`; `True` and `1.0` count as 1.
abbrev pub is_integer : Option Value → ℤ → Bool
is_integer (some (scalar s)) n = py_eq s (int n)
is_integer _ n = false

-- The text of a member; any other value and no value are read as the empty text.
abbrev pub text_of : Option Value → Text
text_of (some (scalar (str s))) = s
text_of _ = []

abbrev pub str_value : Text → Value
str_value s = scalar (str s)

abbrev pub int_value : ℤ → Value
int_value n = scalar (int n)

abbrev pub bool_value : Bool → Value
bool_value b = scalar (bool b)

-- `d.get(k, default)`
abbrev pub value_or : Option Value → Value → Value
value_or none v = v
value_or (some w) v = w

-- An object some of whose members may be left out, and `d.update(e)` for an `e` with new keys.
abbrev pub members : List (Text × Option Value) → Fields
members [] = end
members ((k, none) ∷ d) = members d
members ((k, some v) ∷ d) = field k v (members d)

abbrev pub append_fields : Fields → Fields → Fields
append_fields end gs = gs
append_fields (field k v fs) gs = field k v (append_fields fs gs)
