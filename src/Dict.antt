-- ===== src/Dict.antt =====
-- Python's `dict` with text keys, in insertion order. A write to a key that is there keeps its place.
use raucle.Prelude.{
  ◌≡◌, refl, sym, arith, Bool, false, ◌&&◌, Option, none, some, List, [], ◌∷◌, ◌==◌, All, length,
  is_some, all, if◌then◌else◌, Bool-cases, inl, inr,
}
use mathlib.Core.Path.{subst}
use raucle.Text.{Text, text_eq, text_eq_sound, text_eq_refl}

abbrev pub Dict {ℓ} : Type ℓ → Type ℓ
Dict V = List (Text × V)

module _ {ℓ} {V : Type ℓ} where
  -- `d.get(k)`
  unfoldable pub get : Text → Dict V → Option V
  get k [] = none
  get k ((j, v) ∷ d) = if text_eq j k then some v else get k d

  -- `k in d`
  abbrev pub has_key : Dict V → Text → Bool
  has_key d k = is_some (get k d)

  -- `d[k] = v`
  unfoldable pub put : Text → V → Dict V → Dict V
  put k v [] = (k, v) ∷ []
  put k v ((j, w) ∷ d) = if text_eq j k then (j, v) ∷ d else (j, w) ∷ put k v d

  -- The value under a key of the other dictionary is there and equal.
  abbrev pub value_eq : (V → V → Bool) → V → Option V → Bool
  value_eq eq v none = false
  value_eq eq v (some w) = eq v w

  -- `c == d`, with a test for the values: as many keys, and each key of `c` with an equal value.
  unfoldable pub dict_eq : (V → V → Bool) → Dict V → Dict V → Bool
  unfolding get
  dict_eq eq c d = (length c == length d) && all (λ e. value_eq eq e.1 (get e.0 d)) c

  -- A predicate on entries that holds after a write held before it, if the written value is as strong
  -- as the one that it replaces.
  pub All-of_put :
      (P : Text × V → Type 0) (k : Text) (v : V) (d : Dict V)
      → ((w : V) → get k d ≡ some w → P (k, v) → P (k, w))
      → All P (put k v d)
      → All P d × P (k, v)
  unfolding get put
  All-of_put P k v [] f h = (tt, h.0)
  All-of_put P k v ((j, w) ∷ d) f h = elim (Bool-cases (text_eq j k)) [
    | inl same ↦
        (let h' : P (j, v) × All P d = rw same at h in
          let e : j ≡ k = text_eq_sound j k same in
          let pk : P (k, v) = rw e at (h'.0) in ((rw e (f w (rw same) pk), h'.1), pk))
    | inr other ↦
        (let h' : P (j, w) × All P (put k v d) = rw other at h in
          let (rest, pk) = All-of_put P k v d (λ u e. f u (rw other e)) h'.1 in ((h'.0, rest), pk))
  ]

  pub get-All :
      (P : Text × V → Type 0) (k : Text) (d : Dict V) (v : V)
      → get k d ≡ some v
      → All P d
      → P (k, v)
  unfolding get
  get-All P k [] v e h = cc
  get-All P k ((j, w) ∷ d) v e h = elim (Bool-cases (text_eq j k)) [
    | inl same ↦
        (let e' : some w ≡ some v = rw same at e in
          let ev : w ≡ v = cc in
          subst (λ x. P (x, v)) (text_eq_sound j k same) (subst (λ x. P (j, x)) ev h.0))
    | inr other ↦ get-All P k d v (rw other at e) h.1
  ]

  pub get-put : (k : Text) (v : V) (d : Dict V) → get k (put k v d) ≡ some v
  unfolding get put
  get-put k v [] = rw (text_eq_refl k) refl
  get-put k v ((j, w) ∷ d) = elim (Bool-cases (text_eq j k)) [
    | inl same ↦ rw (same, same) refl
    | inr other ↦ rw (other, other) (get-put k v d)
  ]

  -- A write leaves the other keys alone.
  pub get-put_other :
      (i k : Text) (v : V) (d : Dict V) → text_eq k i ≡ false → get i (put k v d) ≡ get i d
  unfolding get put
  get-put_other i k v [] h = rw h refl
  get-put_other i k v ((j, w) ∷ d) h = elim (Bool-cases (text_eq j k)) [
    | inl same ↦
        (let e = text_eq_sound j k same in
          let off : text_eq j i ≡ false = subst (λ x. text_eq x i ≡ false) (sym e) h in
          rw (same, off) refl)
    | inr other ↦ rw other (ground (arith, get-put_other i k v d h))
  ]
