-- ===== src/Constraints/Entries.antt =====
-- One entry of a constraint against the arguments: a tighter entry that passes leaves a looser one
-- passing.
use raucle.Prelude.{
  ◌≡◌, refl, true, not, Option, none, some, List, [], ◌∷◌, arith, first_some_mono, if◌then◌else◌,
}
use raucle.Prelude.Int.{ℤ, ◌≤ℤ◌}
use raucle.Text.{Text}
use raucle.Json.{
  Scalar, Value, Fields, contains, get_field, above_mono, below_mono, flatten_scalars,
}
use raucle.Constraints.Defs.{Violation, forbidden, not_allowed}
use raucle.Constraints.Check.{
  each_if_present, each_scalar, each_present, forbidden_entry, allowed_entry, max_entry, min_entry,
}

module _ (fld : Text) (f g : Scalar → Option Violation)
    (mono : (s : Scalar) → f s ≡ none → g s ≡ none) where
  each_if_present_mono :
      (o : Option Value) → each_if_present f o ≡ none → each_if_present g o ≡ none
  each_if_present_mono none h = refl
  each_if_present_mono (some v) h = first_some_mono f g (flatten_scalars v) mono h

  each_scalar_mono : (ss : List Scalar) → each_scalar fld f ss ≡ none → each_scalar fld g ss ≡ none
  each_scalar_mono [] h = cc
  each_scalar_mono (s ∷ ss) h = first_some_mono f g (s ∷ ss) mono h

  each_present_mono : (o : Option Value) → each_present fld f o ≡ none → each_present fld g o ≡ none
  each_present_mono none h = cc
  each_present_mono (some v) h = each_scalar_mono (flatten_scalars v) h

-- More forbidden values are tighter.
pub forbidden_entry_mono :
    (args : Fields) (fld : Text) (v w : List Scalar)
    → ((s : Scalar) → contains v s ≡ true → contains w s ≡ true)
    → forbidden_entry args (fld, w) ≡ none
    → forbidden_entry args (fld, v) ≡ none
unfolding forbidden_entry
forbidden_entry_mono args fld v w sub h =
    each_if_present_mono fld (λ s. if contains w s then some (forbidden fld s) else none)
      (λ s. if contains v s then some (forbidden fld s) else none) (λ s k. ground (arith, sub s))
      (get_field fld args) h

-- Fewer allowed values are tighter.
pub allowed_entry_mono :
    (args : Fields) (fld : Text) (v w : List Scalar)
    → ((s : Scalar) → contains w s ≡ true → contains v s ≡ true)
    → allowed_entry args (fld, w) ≡ none
    → allowed_entry args (fld, v) ≡ none
unfolding allowed_entry
allowed_entry_mono args fld v w sub h =
    each_present_mono fld (λ s. if not (contains w s) then some (not_allowed fld s) else none)
      (λ s. if not (contains v s) then some (not_allowed fld s) else none)
      (λ s k. ground (arith, sub s)) (get_field fld args) h

-- A smaller ceiling is tighter.
pub max_entry_mono :
    (args : Fields) (fld : Text) (b c : ℤ)
    → c ≤ℤ b
    → max_entry args (fld, c) ≡ none
    → max_entry args (fld, b) ≡ none
unfolding max_entry
max_entry_mono args fld b c le h =
    each_present_mono fld _ _ (λ s k. ground (arith, above_mono s c b le)) (get_field fld args) h

-- A larger floor is tighter.
pub min_entry_mono :
    (args : Fields) (fld : Text) (b c : ℤ)
    → b ≤ℤ c
    → min_entry args (fld, c) ≡ none
    → min_entry args (fld, b) ≡ none
unfolding min_entry
min_entry_mono args fld b c le h =
    each_present_mono fld _ _ (λ s k. ground (arith, below_mono s c b le)) (get_field fld args) h
