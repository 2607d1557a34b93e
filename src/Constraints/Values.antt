-- ===== src/Constraints/Values.antt =====
-- Membership in a value list after the merge, the sort and Python's list equality.
use raucle.Prelude.{
  ◌≡◌, refl, sym, ◌∙◌, ap, Bool, true, ◌||◌, List, [], ◌∷◌, ◌++◌, arith, any, &&_true, Bool-cases,
  inl, inr,
}
use raucle.Prelude.Sort.{sort, any-sort}
use raucle.Json.{Scalar, same_value, same_value_sound, py_eq, py_eq-swap, contains, contains-append}
use raucle.Constraints.Merge.{
  has_id, distinct_values, union_values, common_values, intersect_values,
}
use raucle.Constraints.Equal.{values_eq}

pub contains-any : (vs : List Scalar) (s : Scalar) → contains vs s ≡ any (py_eq s) vs
unfolding contains
contains-any [] s = refl
contains-any (v ∷ vs) s = rw (contains-any vs s)

pub contains-sort :
    (le : Scalar → Scalar → Bool) (vs : List Scalar) (s : Scalar)
    → contains (sort le vs) s ≡ contains vs s
contains-sort le vs s =
    contains-any (sort le vs) s ∙ any-sort le (py_eq s) vs ∙ sym (contains-any vs s)

-- A value whose identity is in a list is a member of it, as every equal scalar is.
has_id-contains :
    (vs : List Scalar) (v s : Scalar) → has_id vs v ≡ true → py_eq s v ≡ true → contains vs s ≡ true
unfolding contains
has_id-contains [] v s h k = cc
has_id-contains (w ∷ vs) v s h k = elim (Bool-cases (same_value w v)) [
  | inl same ↦ (let e : py_eq s w ≡ true = rw (same_value_sound w v same) k in rw e)
  | inr other ↦
      (let rest : has_id vs v ≡ true = rw other at h in
        ground (arith, has_id-contains vs v s rest k))
]

contains-distinct :
    (seen vs : List Scalar) (s : Scalar)
    → (contains seen s || contains (distinct_values seen vs) s) ≡ (contains seen s || contains vs s)
unfolding contains distinct_values
contains-distinct seen [] s = refl
contains-distinct seen (v ∷ vs) s = ground (
  arith,
  contains-distinct seen vs s,
  contains-distinct (v ∷ seen) vs s,
  has_id-contains seen v s,
)

-- The union has the members of both lists.
pub contains-union :
    (a b : List Scalar) (s : Scalar)
    → contains (union_values a b) s ≡ (contains a s || contains b s)
unfolding union_values contains
contains-union a b s = contains-distinct [] (a ++ b) s ∙ contains-append a b s

pub contains-union_nil :
    (a : List Scalar) (s : Scalar) → contains (union_values a []) s ≡ contains a s
contains-union_nil a s =
    contains-union a [] s ∙ ap (λ b. contains a s || b) (contains-any [] s) ∙ ground arith

contains-common-left :
    (b a : List Scalar) (s : Scalar) → contains (common_values b a) s ≡ true → contains a s ≡ true
unfolding common_values contains
contains-common-left b [] s h = cc
contains-common-left b (v ∷ vs) s h = ground (arith, contains-common-left b vs s)

contains-common-right :
    (b a : List Scalar) (s : Scalar) → contains (common_values b a) s ≡ true → contains b s ≡ true
unfolding common_values contains
contains-common-right b [] s h = cc
contains-common-right b (v ∷ vs) s h =
    ground (arith, contains-common-right b vs s, has_id-contains b v s)

-- The intersection has members of both lists only.
pub contains-intersect :
    (a b : List Scalar) (s : Scalar)
    → contains (intersect_values a b) s ≡ true
    → (contains a s ≡ true) × (contains b s ≡ true)
unfolding intersect_values contains
contains-intersect a b s h =
    let k = sym (contains-distinct [] (common_values b a) s) ∙ h in
    (contains-common-left b a s k, contains-common-right b a s k)

-- Equal lists have the same members.
pub contains-values_eq :
    (a b : List Scalar) (s : Scalar) → values_eq a b ≡ true → contains a s ≡ contains b s
unfolding values_eq contains
contains-values_eq [] [] s h = refl
contains-values_eq [] (v ∷ b) s h = cc
contains-values_eq (v ∷ a) [] s h = cc
contains-values_eq (v ∷ a) (w ∷ b) s h =
    let (p, q) = &&_true (py_eq v w) (values_eq a b) h in
    rw (py_eq-swap s v w p, contains-values_eq a b s q)
