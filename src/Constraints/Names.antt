-- ===== src/Constraints/Names.antt =====
-- The merge of the two kinds that list field names.
use mathlib.Core.Path.{subst}
use raucle.Prelude.{
  ◌≡◌, true, Option, none, some, List, [], ◌∷◌, ◌++◌, All, All-append, or_default, arith, any,
  Bool-cases, inl, inr,
}
use raucle.Prelude.Sort.{sort, All-sort}
use raucle.Text.{Text, lex_le, text_eq, text_eq_sound, mem_text, texts_eq, texts_eq_sound}
use raucle.Json.{Fields}
use raucle.Constraints.Check.{required_entry, combination_entry}
use raucle.Constraints.Merge.{distinct_texts, distinct_combos, merge_required, merge_combos}
use raucle.Constraints.Normalise.{names_le}
use raucle.Constraints.Stable.{combination-sort}

module _ (P : Text → Type 0) where
  mem_text-All : (t : Text) (ts : List Text) → mem_text t ts ≡ true → All P ts → P t
  mem_text-All t [] m h = cc
  mem_text-All t (s ∷ ts) m h = elim (Bool-cases (text_eq s t)) [
    | inl same ↦ subst P (text_eq_sound s t same) h.0
    | inr other ↦ mem_text-All t ts (ground arith) h.1
  ]

  distinct_texts-All :
      (seen ts : List Text) → All P seen → All P (distinct_texts seen ts) → All P ts
  unfolding distinct_texts
  distinct_texts-All seen [] all_seen h = tt
  distinct_texts-All seen (t ∷ ts) all_seen h = elim (Bool-cases (mem_text t seen)) [
    | inl old ↦
        (mem_text-All t seen old all_seen, distinct_texts-All seen ts all_seen (rw old at h))
    | inr new ↦
        (let h' : P t × All P (distinct_texts (t ∷ seen) ts) = rw new at h in
          (h'.0, distinct_texts-All (t ∷ seen) ts (h'.0, all_seen) h'.1))
  ]

module _ (P : List Text → Type 0) (unsort : (c : List Text) → P (sort lex_le c) → P c) where
  any_combo-All :
      (c : List Text) (cs : List (List Text)) → any (λ d. texts_eq d c) cs ≡ true → All P cs → P c
  any_combo-All c [] m h = cc
  any_combo-All c (d ∷ cs) m h = elim (Bool-cases (texts_eq d c)) [
    | inl same ↦ subst P (texts_eq_sound d c same) h.0
    | inr other ↦ any_combo-All c cs (rw other at m) h.1
  ]

  distinct_combos-All :
      (seen cs : List (List Text)) → All P seen → All P (distinct_combos seen cs) → All P cs
  unfolding distinct_combos
  distinct_combos-All seen [] all_seen h = tt
  distinct_combos-All seen (c ∷ cs) all_seen h =
      elim (Bool-cases (any (λ d. texts_eq d (sort lex_le c)) seen)) [
        | inl old ↦ (
          unsort c (any_combo-All (sort lex_le c) seen old all_seen),
          distinct_combos-All seen cs all_seen (rw old at h),
        )
        | inr new ↦
            (let h' : P (sort lex_le c) × All P (distinct_combos (sort lex_le c ∷ seen) cs) =
                rw new at h in
              (unsort c h'.0, distinct_combos-All (sort lex_le c ∷ seen) cs (h'.0, all_seen) h'.1))
      ]

module _ (args : Fields) where
  abbrev IsThere : Text → Type 0
  IsThere k = required_entry args k ≡ none

  abbrev IsAvoided : List Text → Type 0
  IsAvoided c = combination_entry args c ≡ none

  pub required-All :
      (out extra : Option (List Text))
      → All IsThere (or_default (merge_required out extra) [])
      → All IsThere (or_default out []) × All IsThere (or_default extra [])
  required-All out none h = (h, tt)
  required-All out (some ks) h = All-append IsThere (or_default out []) ks (
      distinct_texts-All IsThere [] (or_default out [] ++ ks) tt
        (All-sort lex_le IsThere (distinct_texts [] (or_default out [] ++ ks)) h))

  pub combos-All :
      (out extra : Option (List (List Text)))
      → All IsAvoided (or_default (merge_combos out extra) [])
      → All IsAvoided (or_default out []) × All IsAvoided (or_default extra [])
  combos-All out none h = (h, tt)
  combos-All out (some cs) h = All-append IsAvoided (or_default out []) cs (
      distinct_combos-All IsAvoided (combination-sort args lex_le) [] (or_default out [] ++ cs) tt
        (All-sort (names_le lex_le) IsAvoided (distinct_combos [] (or_default out [] ++ cs)) h))
