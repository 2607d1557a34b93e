-- ===== src/Constraints/Stable.antt =====
-- Sorting a constraint object does not change the arguments that it admits.
use raucle.Prelude.{
  ◌≡◌, sym, ◌∙◌, Bool, Option, none, some, List, [], ◌∷◌, map, All, or_default, arith,
}
use raucle.Prelude.Sort.{sort, all-sort, All-sort, sort-All}
use raucle.Text.{Text, utf16_le}
use raucle.Json.{Scalar, Fields, has_field}
use raucle.Platform.{Platform}
use raucle.Dict.{Dict}
use raucle.Constraints.Defs.{Constraints}
use raucle.Constraints.Check.{combination_entry, required_entry}
use raucle.Constraints.Normalise.{value_le, names_le}
use raucle.Constraints.Entries.{forbidden_entry_mono, allowed_entry_mono}
use raucle.Constraints.Values.{contains-sort}
use raucle.Constraints.Admission.{Pass}
use raucle.Constraints.Sorted.{sort_entry, map_option, sort_combo_list, sorted_kinds}

-- Sorting keeps what the object admits, in both directions.
module _ (P : Text × List Scalar → Type 0) where
  values-unsort :
      (o : Option (Dict (List Scalar)))
      → ((k : Text) (vs : List Scalar) → P (k, sort value_le vs) → P (k, vs))
      → All P (or_default (map_option (map sort_entry) o) [])
      → All P (or_default o [])
  values-unsort none f h = tt
  values-unsort (some d) f h = go d h
    where
      go : (d : Dict (List Scalar)) → All P (map sort_entry d) → All P d
      go [] h = tt
      go ((k, vs) ∷ d) h = (f k vs h.0, go d h.1)

  values-sort :
      (o : Option (Dict (List Scalar)))
      → ((k : Text) (vs : List Scalar) → P (k, vs) → P (k, sort value_le vs))
      → All P (or_default o [])
      → All P (or_default (map_option (map sort_entry) o) [])
  values-sort none f h = tt
  values-sort (some d) f h = go d h
    where
      go : (d : Dict (List Scalar)) → All P d → All P (map sort_entry d)
      go [] h = tt
      go ((k, vs) ∷ d) h = (f k vs h.0, go d h.1)

module _ (args : Fields) where
  pub combination-sort :
      (le : Text → Text → Bool) (combo : List Text)
      → combination_entry args (sort le combo) ≡ none
      → combination_entry args combo ≡ none
  unfolding combination_entry
  combination-sort le combo h = ground (arith, all-sort le (has_field args) combo)

  sort-combination :
      (combo : List Text)
      → combination_entry args combo ≡ none
      → combination_entry args (sort utf16_le combo) ≡ none
  unfolding combination_entry
  sort-combination combo h = ground (arith, all-sort utf16_le (has_field args) combo)

  required-unsort :
      (o : Option (List Text))
      → All (λ k. required_entry args k ≡ none) (or_default (map_option (sort utf16_le) o) [])
      → All (λ k. required_entry args k ≡ none) (or_default o [])
  required-unsort none h = tt
  required-unsort (some ks) h = All-sort utf16_le (λ k. required_entry args k ≡ none) ks h

  required-sort :
      (o : Option (List Text))
      → All (λ k. required_entry args k ≡ none) (or_default o [])
      → All (λ k. required_entry args k ≡ none) (or_default (map_option (sort utf16_le) o) [])
  required-sort none h = tt
  required-sort (some ks) h = sort-All utf16_le (λ k. required_entry args k ≡ none) ks h

  abbrev IsAvoided : List Text → Type 0
  IsAvoided combo = combination_entry args combo ≡ none

  combos-unmap : (cs : List (List Text)) → All IsAvoided (map (sort utf16_le) cs) → All IsAvoided cs
  combos-unmap [] h = tt
  combos-unmap (c ∷ cs) h = (combination-sort utf16_le c h.0, combos-unmap cs h.1)

  combos-map : (cs : List (List Text)) → All IsAvoided cs → All IsAvoided (map (sort utf16_le) cs)
  combos-map [] h = tt
  combos-map (c ∷ cs) h = (sort-combination c h.0, combos-map cs h.1)

  combos-unsort :
      (o : Option (List (List Text)))
      → All IsAvoided (or_default (map_option sort_combo_list o) [])
      → All IsAvoided (or_default o [])
  combos-unsort none h = tt
  combos-unsort (some cs) h =
      combos-unmap cs (All-sort (names_le utf16_le) IsAvoided (map (sort utf16_le) cs) h)

  combos-sort :
      (o : Option (List (List Text)))
      → All IsAvoided (or_default o [])
      → All IsAvoided (or_default (map_option sort_combo_list o) [])
  combos-sort none h = tt
  combos-sort (some cs) h =
      sort-All (names_le utf16_le) IsAvoided (map (sort utf16_le) cs) (combos-map cs h)

module _ (p : Platform) (c : Constraints) (args : Fields) where
  pub Pass-unsort : Pass p (sorted_kinds c) args → Pass p c args
  Pass-unsort h = record {
    forbidden =
        values-unsort _ c.forbidden_values
          (λ k vs.
            forbidden_entry_mono args k vs (sort value_le vs)
              (λ s m. contains-sort value_le vs s ∙ m))
          h.forbidden;
    allowed =
        values-unsort _ c.allowed_values
          (λ k vs.
            allowed_entry_mono args k vs (sort value_le vs)
              (λ s m. sym (contains-sort value_le vs s) ∙ m))
          h.allowed;
    prefixes = h.prefixes;
    ceilings = h.ceilings;
    floors = h.floors;
    present = required-unsort args c.required_present h.present;
    combos = combos-unsort args c.forbidden_field_combinations h.combos;
    registered = h.registered;
  }

  pub Pass-sort : Pass p c args → Pass p (sorted_kinds c) args
  Pass-sort h = record {
    forbidden =
        values-sort _ c.forbidden_values
          (λ k vs.
            forbidden_entry_mono args k (sort value_le vs) vs
              (λ s m. sym (contains-sort value_le vs s) ∙ m))
          h.forbidden;
    allowed =
        values-sort _ c.allowed_values
          (λ k vs.
            allowed_entry_mono args k (sort value_le vs) vs
              (λ s m. contains-sort value_le vs s ∙ m))
          h.allowed;
    prefixes = h.prefixes;
    ceilings = h.ceilings;
    floors = h.floors;
    present = required-sort args c.required_present h.present;
    combos = combos-sort args c.forbidden_field_combinations h.combos;
    registered = h.registered;
  }
