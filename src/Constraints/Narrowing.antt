-- ===== src/Constraints/Narrowing.antt =====
-- `_merge_narrowing` and the test of `_attenuation_violation` that rests on it.
use mathlib.Core.Path.{subst}
use raucle.Prelude.{◌≡◌, refl, sym, ◌∙◌, ◌↔◌, none}
use raucle.Json.{Fields}
use raucle.Platform.{Platform}
use raucle.Result.{ok, >>=-eq-ok, ok-injective}
use raucle.Constraints.Defs.{Constraints, registered_part}
use raucle.Constraints.Check.{check_constraints}
use raucle.Constraints.Normalise.{normalise_constraints}
use raucle.Constraints.Merge.{
  merge_kind, join_forbidden, join_allowed, join_prefix, join_max, join_min, merge_required,
  merge_combos, merge_kinds, merge_narrowing,
}
use raucle.Constraints.Admission.{Pass, Pass-of_check, check-of_Pass}
use raucle.Constraints.Prefixes.{HasPlainPrefixes}
use raucle.Constraints.Sorted.{normalise-eq-sorted}
use raucle.Constraints.Stable.{Pass-unsort, Pass-sort}
use raucle.Constraints.Kinds.{
  forbidden-All, allowed-All, ceilings-All, floors-All, prefixes-All, new_prefixes-All,
}
use raucle.Constraints.Names.{required-All, combos-All}

-- The five merges that made the object.
record Merged (parent extra m : Constraints) : Type 0 where
  forbidden :
      merge_kind join_forbidden parent.forbidden_values extra.forbidden_values
      ≡ ok m.forbidden_values
  allowed : merge_kind join_allowed parent.allowed_values extra.allowed_values ≡ ok m.allowed_values
  prefixes : merge_kind join_prefix parent.starts_with extra.starts_with ≡ ok m.starts_with
  ceilings : merge_kind join_max parent.max_value extra.max_value ≡ ok m.max_value
  floors : merge_kind join_min parent.min_value extra.min_value ≡ ok m.min_value
  present : merge_required parent.required_present extra.required_present ≡ m.required_present
  combos :
      merge_combos parent.forbidden_field_combinations extra.forbidden_field_combinations
      ≡ m.forbidden_field_combinations
  others : m.other_kinds ≡ parent.other_kinds

merge_kinds-Merged :
    (parent extra : Constraints) {m : Constraints}
    → merge_kinds parent extra ≡ ok m
    → Merged parent extra m
unfolding merge_kinds
merge_kinds-Merged parent extra h =
    let (a₀, e₀, h₀) =
      >>=-eq-ok (merge_kind join_forbidden parent.forbidden_values extra.forbidden_values) _ h in
    let (a₁, e₁, h₁) =
      >>=-eq-ok (merge_kind join_allowed parent.allowed_values extra.allowed_values) _ h₀ in
    let (a₂, e₂, h₂) =
      >>=-eq-ok (merge_kind join_prefix parent.starts_with extra.starts_with) _ h₁ in
    let (a₃, e₃, h₃) = >>=-eq-ok (merge_kind join_max parent.max_value extra.max_value) _ h₂ in
    let (a₄, e₄, h₄) = >>=-eq-ok (merge_kind join_min parent.min_value extra.min_value) _ h₃ in
    subst (Merged parent extra) (ok-injective h₄) (record {
      forbidden = e₀;
      allowed = e₁;
      prefixes = e₂;
      ceilings = e₃;
      floors = e₄;
      present = refl;
      combos = refl;
      others = refl;
    })

module _ (p : Platform) (parent extra m : Constraints) (args : Fields) where
  Merged-Pass-parent :
      HasPlainPrefixes parent → Merged parent extra m → Pass p m args → Pass p parent args
  Merged-Pass-parent plain made h = record {
    forbidden =
        (forbidden-All args parent.forbidden_values extra.forbidden_values made.forbidden
          h.forbidden).0;
    allowed =
        (allowed-All args parent.allowed_values extra.allowed_values made.allowed h.allowed).0;
    prefixes =
        prefixes-All p args parent.starts_with extra.starts_with plain made.prefixes h.prefixes;
    ceilings = (ceilings-All args parent.max_value extra.max_value made.ceilings h.ceilings).0;
    floors = (floors-All args parent.min_value extra.min_value made.floors h.floors).0;
    present =
        (required-All args parent.required_present extra.required_present
          (rw made.present h.present)).0;
    combos =
        (combos-All args parent.forbidden_field_combinations extra.forbidden_field_combinations
          (rw made.combos h.combos)).0;
    registered = sym made.others ∙ h.registered;
  }

  Merged-Pass-extra :
      HasPlainPrefixes extra
      → Merged parent extra m
      → Pass p m args
      → Pass p (registered_part extra) args
  Merged-Pass-extra plain made h = record {
    forbidden =
        (forbidden-All args parent.forbidden_values extra.forbidden_values made.forbidden
          h.forbidden).1;
    allowed =
        (allowed-All args parent.allowed_values extra.allowed_values made.allowed h.allowed).1;
    prefixes =
        new_prefixes-All p args parent.starts_with extra.starts_with plain made.prefixes h.prefixes;
    ceilings = (ceilings-All args parent.max_value extra.max_value made.ceilings h.ceilings).1;
    floors = (floors-All args parent.min_value extra.min_value made.floors h.floors).1;
    present =
        (required-All args parent.required_present extra.required_present
          (rw made.present h.present)).1;
    combos =
        (combos-All args parent.forbidden_field_combinations extra.forbidden_field_combinations
          (rw made.combos h.combos)).1;
    registered = refl;
  }

-- Normalisation accepts an object without changing the calls that it admits.
pub normalise-same_calls :
    (p : Platform) (c d : Constraints) (args : Fields)
    → normalise_constraints p c ≡ ok d
    → (check_constraints p d args ≡ none) ↔ (check_constraints p c args ≡ none)
normalise-same_calls p c d args h =
    let e = normalise-eq-sorted p c h in
    (
      (λ k.
          check-of_Pass p c args
            (Pass-unsort p c args (subst (λ x. Pass p x args) e (Pass-of_check p d args k)))),
      (λ k.
          check-of_Pass p d args
            (subst (λ x. Pass p x args) (sym e) (Pass-sort p c args (Pass-of_check p c args k)))),
    )

-- The merge of a parent's constraints with extra ones admits a call only if the parent's do, when no
-- prefix of the parent is a file URI.
pub merge-narrows-parent :
    (p : Platform) (parent extra merged : Constraints) (args : Fields)
    → HasPlainPrefixes parent
    → merge_narrowing p parent extra ≡ ok merged
    → check_constraints p merged args ≡ none
    → check_constraints p parent args ≡ none
unfolding merge_narrowing
merge-narrows-parent p parent extra merged args plain h k =
    let (m, made, sorted) = >>=-eq-ok (merge_kinds parent extra) _ h in
    check-of_Pass p parent args (
      Merged-Pass-parent p parent extra m args plain (merge_kinds-Merged parent extra made)
        (Pass-of_check p m args ((normalise-same_calls p m merged args sorted).0 k)))

-- The merge also admits a call only if the extra constraints do that are of a kind in the registry, when
-- no prefix of theirs is a file URI. (The merge drops what the extra object has under other keys.)
pub merge-narrows-extra :
    (p : Platform) (parent extra merged : Constraints) (args : Fields)
    → HasPlainPrefixes extra
    → merge_narrowing p parent extra ≡ ok merged
    → check_constraints p merged args ≡ none
    → check_constraints p (registered_part extra) args ≡ none
unfolding merge_narrowing
merge-narrows-extra p parent extra merged args plain h k =
    let (m, made, sorted) = >>=-eq-ok (merge_kinds parent extra) _ h in
    check-of_Pass p (registered_part extra) args (
      Merged-Pass-extra p parent extra m args plain (merge_kinds-Merged parent extra made)
        (Pass-of_check p m args ((normalise-same_calls p m merged args sorted).0 k)))
