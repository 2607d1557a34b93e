-- ===== src/Json/Defs.antt =====
-- The values, Python's `==` on scalars, and `_flatten_scalars`, `_is_number` of
-- raucle/capability.py.
use raucle.Prelude.{
  ℕ, zero, ◌+◌, ◌*◌, ◌^◌, Bool, true, false, not, ◌&&◌, ◌||◌, Option, none, some, List, [], ◌∷◌,
  ◌++◌, ltb, ◌==◌, is_some, if◌then◌else◌,
}
use raucle.Prelude.Int.{ℤ, pos, pos_part, neg_part, eq_ℤ}
use raucle.Text.{Text, text_eq}

-- A float is not a number, infinite, or `n / 2 ^ k` in lowest terms: `k` is 0 or `n` is odd.
pub data Float : Type 0 where
  nan inf neg_inf : Float
  finite : ℤ → ℕ → Float

pub data Scalar : Type 0 where
  null : Scalar
  bool : Bool → Scalar
  int : ℤ → Scalar
  float : Float → Scalar
  str : Text → Scalar

-- `arr` is a list, tuple or set, in the order of iteration.
mutual
  pub data Value : Type 0 where
    scalar : Scalar → Value
    arr : Items → Value
    obj : Fields → Value

  pub data Items : Type 0 where
    nil : Items
    cons : Value → Items → Items

  pub data Fields : Type 0 where
    end : Fields
    field : Text → Value → Fields → Fields

abbrev bool_eq : Bool → Bool → Bool
bool_eq true b = b
bool_eq false b = not b

abbrev float_eq : Float → Float → Bool
float_eq nan nan = true
float_eq inf inf = true
float_eq neg_inf neg_inf = true
float_eq (finite m j) (finite n k) = eq_ℤ m n && (j == k)
float_eq _ _ = false

-- The same type and the same value: equality of the pairs that `_vid` returns.
unfoldable pub same_value : Scalar → Scalar → Bool
same_value null null = true
same_value (bool a) (bool b) = bool_eq a b
same_value (int a) (int b) = eq_ℤ a b
same_value (float a) (float b) = float_eq a b
same_value (str a) (str b) = text_eq a b
same_value _ _ = false

-- One scalar for each class of Python's `==`: `True == 1` and `1.0 == 1`.
unfoldable pub py_key : Scalar → Scalar
py_key (bool true) = int (pos 1)
py_key (bool false) = int (pos 0)
py_key (float (finite n zero)) = int n
py_key s = s

abbrev is_nan : Scalar → Bool
is_nan (float nan) = true
is_nan _ = false

-- `a == b`
unfoldable pub py_eq : Scalar → Scalar → Bool
py_eq a b = not (is_nan a) && same_value (py_key a) (py_key b)

-- `s in values`
unfoldable pub contains : List Scalar → Scalar → Bool
contains [] s = false
contains (v ∷ vs) s = py_eq s v || contains vs s

-- `_flatten_scalars`: keys and values of every nested container.
unfoldable mutual
  pub flatten_scalars : Value → List Scalar
  flatten_scalars (scalar s) = s ∷ []
  flatten_scalars (arr xs) = flatten_items xs
  flatten_scalars (obj fs) = flatten_fields fs

  pub flatten_items : Items → List Scalar
  flatten_items nil = []
  flatten_items (cons v xs) = flatten_scalars v ++ flatten_items xs

  pub flatten_fields : Fields → List Scalar
  flatten_fields end = []
  flatten_fields (field k v fs) = str k ∷ (flatten_scalars v ++ flatten_fields fs)

-- `d.get(k)` of an object.
unfoldable pub get_field : Text → Fields → Option Value
get_field k end = none
get_field k (field j v fs) = if text_eq j k then some v else get_field k fs

-- `k in d`
abbrev pub has_field : Fields → Text → Bool
has_field fs k = is_some (get_field k fs)

-- `_is_number`: an integer that is no bool, or a finite float.
abbrev pub is_number : Scalar → Bool
is_number (int n) = true
is_number (float (finite n k)) = true
is_number _ = false

-- `s > b` and `s < b` of a number and an integer, which Python compares exactly.
abbrev pub above : Scalar → ℤ → Bool
above (int n) b = ltb (pos_part b + neg_part n) (pos_part n + neg_part b)
above (float (finite n k)) b =
    ltb (pos_part b * 2 ^ k + neg_part n) (pos_part n + neg_part b * 2 ^ k)
above _ b = false

abbrev pub below : Scalar → ℤ → Bool
below (int n) b = ltb (pos_part n + neg_part b) (pos_part b + neg_part n)
below (float (finite n k)) b =
    ltb (pos_part n + neg_part b * 2 ^ k) (pos_part b * 2 ^ k + neg_part n)
below _ b = false
