-- ===== src/Json/Laws.antt =====
-- What the equality tests on scalars decide, and the order of numbers against two bounds.
use native.Mathlib.Nat.{add-mul, mul-le-mul_right}
use raucle.Prelude.{
  ℕ, ◌+◌, ◌*◌, ◌^◌, ◌≤◌, ◌≡◌, refl, true, false, ◌||◌, List, [], ◌∷◌, ◌++◌, arith, &&_true,
}
use raucle.Prelude.Int.{ℤ, ◌≤ℤ◌, pos_part, neg_part, eq_ℤ_iff}
use raucle.Text.{text_eq_sound}
use raucle.Json.Defs.{
  nan, inf, neg_inf, finite, Scalar, null, bool, int, float, str, same_value, py_key, py_eq,
  contains, above, below,
}

-- The pairs of `_vid` agree only for one and the same JSON value.
pub same_value_sound : (a b : Scalar) → same_value a b ≡ true → a ≡ b
unfolding same_value
same_value_sound (bool a) (bool b) h = ground arith
same_value_sound (int a) (int b) h = cc ((eq_ℤ_iff a b).0 h)
same_value_sound (float (finite m j)) (float (finite n k)) h = ground (arith, (eq_ℤ_iff m n).0)
same_value_sound (float a) (float b) h = ground arith
same_value_sound (str a) (str b) h = cc (text_eq_sound a b h)
same_value_sound null _ h = ground arith
same_value_sound _ _ h = ground arith

py_eq-key : (a b : Scalar) → py_eq a b ≡ true → py_key a ≡ py_key b
unfolding py_eq
py_eq-key a b h = same_value_sound (py_key a) (py_key b) (&&_true _ _ h).1

-- Values that are equal in Python are members of the same lists.
pub py_eq-swap : (s a b : Scalar) → py_eq a b ≡ true → py_eq s a ≡ py_eq s b
unfolding py_eq
py_eq-swap s a b h = rw (py_eq-key a b h)

pub contains-append :
    (xs ys : List Scalar) (s : Scalar) → contains (xs ++ ys) s ≡ (contains xs s || contains ys s)
unfolding contains
contains-append [] ys s = refl
contains-append (x ∷ xs) ys s = ground (arith, contains-append xs ys s)

scale_le : (a b c d k : ℕ) → a + d ≤ b + c → a * 2 ^ k + d * 2 ^ k ≤ b * 2 ^ k + c * 2 ^ k
scale_le a b c d k h =
    rw (← add-mul a d (2 ^ k), ← add-mul b c (2 ^ k)) (mul-le-mul_right (2 ^ k) h)

-- What does not exceed a bound exceeds no larger one, and conversely for the other side.
pub above_mono : (s : Scalar) (b c : ℤ) → b ≤ℤ c → above s b ≡ false → above s c ≡ false
above_mono (int n) b c h k = ground arith
above_mono (float (finite n j)) b c h k =
    ground (arith, scale_le (pos_part b) (pos_part c) (neg_part b) (neg_part c) j)
above_mono null b c h k = refl
above_mono (float nan) b c h k = refl
above_mono (float inf) b c h k = refl
above_mono (float neg_inf) b c h k = refl
above_mono (bool x) b c h k = refl
above_mono (str x) b c h k = refl

pub below_mono : (s : Scalar) (b c : ℤ) → c ≤ℤ b → below s b ≡ false → below s c ≡ false
below_mono (int n) b c h k = ground arith
below_mono (float (finite n j)) b c h k =
    ground (arith, scale_le (pos_part c) (pos_part b) (neg_part c) (neg_part b) j)
below_mono null b c h k = refl
below_mono (float nan) b c h k = refl
below_mono (float inf) b c h k = refl
below_mono (float neg_inf) b c h k = refl
below_mono (bool x) b c h k = refl
below_mono (str x) b c h k = refl
