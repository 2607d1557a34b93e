-- ===== src/Constraints/Same.antt =====
-- Constraint objects that are equal in Python admit the same calls.
use mathlib.Core.Path.{subst}
use raucle.Prelude.{
  ◌≡◌, refl, sym, ◌∙◌, Bool, true, Option, none, some, List, [], ◌∷◌, All, all, length, ◌==◌,
  or_default, &&_true,
}
use raucle.Prelude.Int.{eq_ℤ, eq_ℤ_iff}
use raucle.Text.{Text, text_eq, text_eq_sound, texts_eq, texts_eq_sound}
use raucle.Json.{Value, Fields}
use raucle.Platform.{Platform}
use raucle.Dict.{Dict, get, get-All, value_eq, dict_eq}
use raucle.Constraints.Defs.{Constraints}
use raucle.Constraints.Check.{
  forbidden_entry, allowed_entry, starts_with_entry, max_entry, min_entry,
}
use raucle.Constraints.Equal.{values_eq, combos_eq, kind_eq, others_eq, constraints_eq}
use raucle.Constraints.Entries.{forbidden_entry_mono, allowed_entry_mono}
use raucle.Constraints.Values.{contains-values_eq}
use raucle.Constraints.Admission.{Pass}

module _ {V : Type 0} (P : Text × V → Type 0) (eq : V → V → Bool)
    (carry : (k : Text) (v w : V) → eq v w ≡ true → P (k, w) → P (k, v)) where
  value_eq-P :
      (k : Text) (v : V) (d : Dict V) (o : Option V)
      → get k d ≡ o
      → value_eq eq v o ≡ true
      → All P d
      → P (k, v)
  value_eq-P k v d none e h all_d = cc
  value_eq-P k v d (some w) e h all_d = carry k v w h (get-All P k d w e all_d)

  entries-All : (c d : Dict V) → all (λ e. value_eq eq e.1 (get e.0 d)) c ≡ true → All P d → All P c
  entries-All [] d h all_d = tt
  entries-All ((k, v) ∷ c) d h all_d =
      let (p, q) = &&_true (value_eq eq v (get k d)) _ h in
      (value_eq-P k v d (get k d) refl p all_d, entries-All c d q all_d)

  dict_eq-All : (c d : Dict V) → dict_eq eq c d ≡ true → All P d → All P c
  unfolding dict_eq
  dict_eq-All c d h all_d = entries-All c d (&&_true (length c == length d) _ h).1 all_d

  kind_eq-All :
      (c d : Option (Dict V))
      → kind_eq (dict_eq eq) c d ≡ true
      → All P (or_default d [])
      → All P (or_default c [])
  kind_eq-All none d h all_d = tt
  kind_eq-All (some c) none h all_d = cc
  kind_eq-All (some c) (some d) h all_d = dict_eq-All c d h all_d

combos_eq_sound : (cs ds : List (List Text)) → combos_eq cs ds ≡ true → cs ≡ ds
combos_eq_sound [] [] h = refl
combos_eq_sound [] (d ∷ ds) h = cc
combos_eq_sound (c ∷ cs) [] h = cc
combos_eq_sound (c ∷ cs) (d ∷ ds) h =
    let (p, q) = &&_true (texts_eq c d) (combos_eq cs ds) h in
    cc (texts_eq_sound c d p, combos_eq_sound cs ds q)

names-All :
    (P : Text → Type 0) (c d : Option (List Text))
    → kind_eq texts_eq c d ≡ true
    → All P (or_default d [])
    → All P (or_default c [])
names-All P none d h all_d = tt
names-All P (some c) none h all_d = cc
names-All P (some c) (some d) h all_d = subst (All P) (sym (texts_eq_sound c d h)) all_d

combos-All :
    (P : List Text → Type 0) (c d : Option (List (List Text)))
    → kind_eq combos_eq c d ≡ true
    → All P (or_default d [])
    → All P (or_default c [])
combos-All P none d h all_d = tt
combos-All P (some c) none h all_d = cc
combos-All P (some c) (some d) h all_d = subst (All P) (sym (combos_eq_sound c d h)) all_d

others_eq-nil : (c d : Dict Value) → others_eq c d ≡ true → c ≡ []
others_eq-nil [] d h = refl
others_eq-nil (e ∷ c) d h = cc

pub constraints_eq-Pass :
    (p : Platform) (c d : Constraints) (args : Fields)
    → constraints_eq c d ≡ true
    → Pass p d args
    → Pass p c args
unfolding constraints_eq
constraints_eq-Pass p c d args h pass =
    let (k₇, h₇) = &&_true _ _ h in
    let (k₆, h₆) = &&_true _ _ k₇ in
    let (k₅, h₅) = &&_true _ _ k₆ in
    let (k₄, h₄) = &&_true _ _ k₅ in
    let (k₃, h₃) = &&_true _ _ k₄ in
    let (k₂, h₂) = &&_true _ _ k₃ in
    let (h₀, h₁) = &&_true _ _ k₂ in
    record {
      forbidden =
          kind_eq-All (λ e. forbidden_entry args e ≡ none) values_eq
            (λ k v w e.
              forbidden_entry_mono args k v w (λ s m. sym (contains-values_eq v w s e) ∙ m))
            c.forbidden_values d.forbidden_values h₀ pass.forbidden;
      allowed =
          kind_eq-All (λ e. allowed_entry args e ≡ none) values_eq
            (λ k v w e. allowed_entry_mono args k v w (λ s m. contains-values_eq v w s e ∙ m))
            c.allowed_values d.allowed_values h₁ pass.allowed;
      prefixes =
          kind_eq-All (λ e. starts_with_entry p args e ≡ none) text_eq
            (λ k v w e at. rw (text_eq_sound v w e) at) c.starts_with d.starts_with h₂
            pass.prefixes;
      ceilings =
          kind_eq-All (λ e. max_entry args e ≡ none) eq_ℤ (λ k v w e at. rw ((eq_ℤ_iff v w).0 e) at)
            c.max_value d.max_value h₃ pass.ceilings;
      floors =
          kind_eq-All (λ e. min_entry args e ≡ none) eq_ℤ (λ k v w e at. rw ((eq_ℤ_iff v w).0 e) at)
            c.min_value d.min_value h₄ pass.floors;
      present = names-All _ c.required_present d.required_present h₅ pass.present;
      combos =
          combos-All _ c.forbidden_field_combinations d.forbidden_field_combinations h₆ pass.combos;
      registered = others_eq-nil c.other_kinds d.other_kinds h₇;
    }
