-- ===== src/Constraints/Kinds.antt =====
-- The merge of one kind: what the merged entries admit, the entries of both inputs admit.
use mathlib.Core.Path.{subst}
use raucle.Prelude.{
  ◌≡◌, sym, ◌∙◌, ap, true, Option, none, some, List, [], ◌∷◌, All, All-map, or_default, arith,
  Bool-cases, inl, inr, if◌then◌else◌,
}
use raucle.Prelude.Int.{ℤ, ◌≤ℤ◌}
use raucle.Text.{
  Text, text_eq, text_eq_sound, mem_text, texts_eq, texts_eq_sound, starts_with_trans,
  starts_with_refl,
}
use raucle.Text
use raucle.Json.{Scalar, Fields, contains}
use raucle.Platform.{Platform}
use raucle.Dict.{Dict, get, put, All-of_put}
use raucle.Result.{Result, ok, err, broader_prefix, disjoint_prefix, >>=-eq-ok, ok-injective}
use raucle.Constraints.Check.{
  forbidden_entry, allowed_entry, starts_with_entry, max_entry, min_entry,
}
use raucle.Constraints.Merge.{
  merge_entries, merge_kind, join_forbidden, join_allowed, join_prefix, join_max, join_min,
}
use raucle.Constraints.Entries.{
  forbidden_entry_mono, allowed_entry_mono, max_entry_mono, min_entry_mono,
}
use raucle.Constraints.Values.{contains-union, contains-union_nil, contains-intersect}
use raucle.Constraints.Prefixes.{IsPlain, starts_with_entry_mono}

-- Where a join is as strong as the value that it replaces and as the value that it adds, a property
-- of the merged entries is one of both dictionaries.
module _ {V : Type 0} (P : Text × V → Type 0) (join : Option V → V → Result V)
    (keeps_old : (k : Text) (old v w : V) → join (some old) v ≡ ok w → P (k, w) → P (k, old))
    (keeps_new : (k : Text) (o : Option V) (v w : V) → join o v ≡ ok w → P (k, w) → P (k, v)) where
  merge_entries-All :
      (out extra : Dict V) {d : Dict V}
      → merge_entries join out extra ≡ ok d
      → All P d
      → All P out × All P extra
  unfolding merge_entries
  merge_entries-All out [] h all_d = (subst (All P) (sym (ok-injective h)) all_d, tt)
  merge_entries-All out ((k, v) ∷ extra) h all_d =
      let (w, e, rest) = >>=-eq-ok (join (get k out) v) _ h in
      let (all_put, all_extra) = merge_entries-All (put k w out) extra rest all_d in
      let (all_out, at_k) =
        All-of_put P k w out (λ old at. keeps_old k old v w (ap (λ o. join o v) (sym at) ∙ e))
          all_put in
      (all_out, (keeps_new k (get k out) v w e at_k, all_extra))

  merge_kind-All :
      (out extra : Option (Dict V)) {r : Option (Dict V)}
      → merge_kind join out extra ≡ ok r
      → All P (or_default r [])
      → All P (or_default out []) × All P (or_default extra [])
  merge_kind-All out none h all_r =
      (subst (λ o. All P (or_default o [])) (sym (ok-injective h)) all_r, tt)
  merge_kind-All out (some []) h all_r =
      (subst (λ o. All P (or_default o [])) (sym (ok-injective h)) all_r, tt)
  merge_kind-All out (some (e ∷ es)) h all_r =
      let (d, merged, made) = >>=-eq-ok (merge_entries join (or_default out []) (e ∷ es)) _ h in
      merge_entries-All (or_default out []) (e ∷ es) merged
        (subst (λ o. All P (or_default o [])) (sym (ok-injective made)) all_r)

module _ (args : Fields) where
  pub forbidden-All :
      (out extra : Option (Dict (List Scalar))) {r : Option (Dict (List Scalar))}
      → merge_kind join_forbidden out extra ≡ ok r
      → All (λ e. forbidden_entry args e ≡ none) (or_default r [])
      → All (λ e. forbidden_entry args e ≡ none) (or_default out [])
        × All (λ e. forbidden_entry args e ≡ none) (or_default extra [])
  forbidden-All =
      merge_kind-All (λ e. forbidden_entry args e ≡ none) join_forbidden
        (λ k old v w e.
          forbidden_entry_mono args k old w
            (λ s m. ap (λ l. contains l s) (sym (ok-injective e)) ∙ contains-union old v s ∙ rw m))
        (λ k o v w e. forbidden_entry_mono args k v w (λ s m.
          ap (λ l. contains l s) (sym (ok-injective e))
          ∙ contains-union (or_default o []) v s
          ∙ ground arith))

  pub allowed-All :
      (out extra : Option (Dict (List Scalar))) {r : Option (Dict (List Scalar))}
      → merge_kind join_allowed out extra ≡ ok r
      → All (λ e. allowed_entry args e ≡ none) (or_default r [])
      → All (λ e. allowed_entry args e ≡ none) (or_default out [])
        × All (λ e. allowed_entry args e ≡ none) (or_default extra [])
  allowed-All =
      merge_kind-All (λ e. allowed_entry args e ≡ none) join_allowed
        (λ k old v w e.
          allowed_entry_mono args k old w
            (λ s m. (contains-intersect old v s (ap (λ l. contains l s) (ok-injective e) ∙ m)).0))
        (λ k o v w e. allowed_entry_mono args k v w (λ s m. added o v w e s m))
    where
      added :
          (o : Option (List Scalar)) (v w : List Scalar)
          → join_allowed o v ≡ ok w
          → (s : Scalar) → contains w s ≡ true
          → contains v s ≡ true
      added none v w e s m =
          sym (contains-union_nil v s) ∙ ap (λ l. contains l s) (ok-injective e) ∙ m
      added (some old) v w e s m =
          (contains-intersect old v s (ap (λ l. contains l s) (ok-injective e) ∙ m)).1

  pub ceilings-All :
      (out extra : Option (Dict ℤ)) {r : Option (Dict ℤ)}
      → merge_kind join_max out extra ≡ ok r
      → All (λ e. max_entry args e ≡ none) (or_default r [])
      → All (λ e. max_entry args e ≡ none) (or_default out [])
        × All (λ e. max_entry args e ≡ none) (or_default extra [])
  ceilings-All =
      merge_kind-All (λ e. max_entry args e ≡ none) join_max
        (λ k old v w e. max_entry_mono args k old w (ground (arith, ok-injective e)))
        (λ k o v w e. max_entry_mono args k v w (added o v w e))
    where
      added : (o : Option ℤ) (v w : ℤ) → join_max o v ≡ ok w → w ≤ℤ v
      added none v w e = ground (arith, ok-injective e)
      added (some old) v w e = ground (arith, ok-injective e)

  pub floors-All :
      (out extra : Option (Dict ℤ)) {r : Option (Dict ℤ)}
      → merge_kind join_min out extra ≡ ok r
      → All (λ e. min_entry args e ≡ none) (or_default r [])
      → All (λ e. min_entry args e ≡ none) (or_default out [])
        × All (λ e. min_entry args e ≡ none) (or_default extra [])
  floors-All =
      merge_kind-All (λ e. min_entry args e ≡ none) join_min
        (λ k old v w e. min_entry_mono args k old w (ground (arith, ok-injective e)))
        (λ k o v w e. min_entry_mono args k v w (added o v w e))
    where
      added : (o : Option ℤ) (v w : ℤ) → join_min o v ≡ ok w → v ≤ℤ w
      added none v w e = ground (arith, ok-injective e)
      added (some old) v w e = ground (arith, ok-injective e)

-- A longer prefix stands for a plain one that it extends.
module _ (p : Platform) (args : Fields) where
  abbrev Extends : Text × Text → Type 0
  Extends (k, v) =
      (w : Text) × (Text.starts_with v w ≡ true) × (starts_with_entry p args (k, w) ≡ none)

  keeps_prefix :
      (k old v w : Text) → join_prefix (some old) v ≡ ok w → Extends (k, w) → Extends (k, old)
  keeps_prefix k old v w e (u, ext, passes) = elim (Bool-cases (Text.starts_with old v)) [
    | inl longer ↦
        (let same : v ≡ w = ok-injective (rw longer at e) in
          (u, starts_with_trans old w u (rw same at longer) ext, passes))
    | inr not_longer ↦
        (let e' : (if Text.starts_with v old then err broader_prefix else err disjoint_prefix)
              ≡ ok w =
            rw not_longer at e in
          ground arith)
  ]

  new_prefix : (o : Option Text) (v w : Text) → join_prefix o v ≡ ok w → v ≡ w
  new_prefix none v w e = ok-injective e
  new_prefix (some old) v w e = ground arith

  plain-Extends :
      (d : Dict Text)
      → All IsPlain d
      → All Extends d
      → All (λ e. starts_with_entry p args e ≡ none) d
  plain-Extends [] plain ext = tt
  plain-Extends ((k, v) ∷ d) plain ((w, longer, passes), rest) =
      (starts_with_entry_mono p args k v w plain.0 longer passes, plain-Extends d plain.1 rest)

  prefixes-Extends :
      (out extra : Option (Dict Text)) {r : Option (Dict Text)}
      → merge_kind join_prefix out extra ≡ ok r
      → All (λ e. starts_with_entry p args e ≡ none) (or_default r [])
      → All Extends (or_default out []) × All Extends (or_default extra [])
  prefixes-Extends out extra {r} h all_r =
      merge_kind-All Extends join_prefix keeps_prefix
        (λ k o v w e x. subst (λ t. Extends (k, t)) (sym (new_prefix o v w e)) x) out extra h
        (All-map (or_default r []) (λ e passes. (e.1, starts_with_refl e.1, passes)) all_r)

  pub prefixes-All :
      (out extra : Option (Dict Text)) {r : Option (Dict Text)}
      → All IsPlain (or_default out [])
      → merge_kind join_prefix out extra ≡ ok r
      → All (λ e. starts_with_entry p args e ≡ none) (or_default r [])
      → All (λ e. starts_with_entry p args e ≡ none) (or_default out [])
  prefixes-All out extra plain h all_r =
      plain-Extends (or_default out []) plain (prefixes-Extends out extra h all_r).0

  pub new_prefixes-All :
      (out extra : Option (Dict Text)) {r : Option (Dict Text)}
      → All IsPlain (or_default extra [])
      → merge_kind join_prefix out extra ≡ ok r
      → All (λ e. starts_with_entry p args e ≡ none) (or_default r [])
      → All (λ e. starts_with_entry p args e ≡ none) (or_default extra [])
  new_prefixes-All out extra plain h all_r =
      plain-Extends (or_default extra []) plain (prefixes-Extends out extra h all_r).1
