-- ===== src/Prelude/Sort.antt =====
-- `sorted(xs, key=…)`, given the test `key(a) <= key(b)`: a stable insertion sort.
use mathlib.Core.Path.{◌≡◌, refl}
use mathlib.Core.Logic.{inl, inr}
use mathlib.Core.Bool.{Bool, ◌&&◌, ◌||◌}
use mathlib.Core.List.{List, [], ◌∷◌}
use native.Mathlib.Omega.{arith}
use raucle.Prelude.Tests.{if◌then◌else◌, Bool-cases}
use raucle.Prelude.Lists.{all, any, All}

module _ {ℓ} {A : Type ℓ} (le : A → A → Bool) where
  insert : A → List A → List A
  insert x [] = x ∷ []
  insert x (y ∷ ys) = if le x y then x ∷ y ∷ ys else y ∷ insert x ys

  unfoldable pub sort : List A → List A
  unfolding insert
  sort [] = []
  sort (x ∷ xs) = insert x (sort xs)

  sort-cons : (x : A) (xs : List A) → sort (x ∷ xs) ≡ insert x (sort xs)
  unfolding sort
  sort-cons x xs = refl

  -- Any and all of the elements pass a test as before.
  any-insert : (f : A → Bool) (x : A) (ys : List A) → any f (insert x ys) ≡ (f x || any f ys)
  unfolding insert
  any-insert f x [] = refl
  any-insert f x (y ∷ ys) = ground (arith, any-insert f x ys)

  pub any-sort : (f : A → Bool) (xs : List A) → any f (sort xs) ≡ any f xs
  any-sort f [] = unfold sort in refl
  any-sort f (x ∷ xs) = rw (sort-cons, any-insert f x (sort xs), any-sort f xs)

  all-insert : (f : A → Bool) (x : A) (ys : List A) → all f (insert x ys) ≡ (f x && all f ys)
  unfolding insert
  all-insert f x [] = refl
  all-insert f x (y ∷ ys) = ground (arith, all-insert f x ys)

  pub all-sort : (f : A → Bool) (xs : List A) → all f (sort xs) ≡ all f xs
  all-sort f [] = unfold sort in refl
  all-sort f (x ∷ xs) = rw (sort-cons, all-insert f x (sort xs), all-sort f xs)

  All-insert {κ} : (P : A → Type κ) (x : A) (ys : List A) → All P (insert x ys) → P x × All P ys
  unfolding insert
  All-insert P x [] h = (h.0, tt)
  All-insert P x (y ∷ ys) h = elim (Bool-cases (le x y)) [
    | inl first ↦ rw first at h
    | inr later ↦
        (let h' : P y × All P (insert x ys) = rw later at h in
          let (p, q) = All-insert P x ys h'.1 in (p, (h'.0, q)))
  ]

  pub All-sort {κ} : (P : A → Type κ) (xs : List A) → All P (sort xs) → All P xs
  All-sort P [] h = tt
  All-sort P (x ∷ xs) h =
      let (p, q) = All-insert P x (sort xs) (rw sort-cons at h) in (p, All-sort P xs q)

  insert-All {κ} : (P : A → Type κ) (x : A) (ys : List A) → P x → All P ys → All P (insert x ys)
  unfolding insert
  insert-All P x [] p h = (p, tt)
  insert-All P x (y ∷ ys) p h = elim (Bool-cases (le x y)) [
    | inl first ↦ rw first (p, h)
    | inr later ↦ rw later (h.0, insert-All P x ys p h.1)
  ]

  pub sort-All {κ} : (P : A → Type κ) (xs : List A) → All P xs → All P (sort xs)
  sort-All P [] h = unfold sort in tt
  sort-All P (x ∷ xs) h = rw sort-cons (insert-All P x (sort xs) h.0 (sort-All P xs h.1))
