-- ===== src/Constraints/Equal.antt =====
-- `==` on constraint objects: the same kinds, and under each kind equal values.
use raucle.Prelude.{Bool, true, false, ◌&&◌, Option, none, some, List, [], ◌∷◌}
use raucle.Prelude.Int.{eq_ℤ}
use raucle.Text.{Text, text_eq, texts_eq}
use raucle.Json.{Scalar, Value, py_eq}
use raucle.Dict.{Dict, dict_eq}
use raucle.Constraints.Defs.{Constraints}

-- `==` on lists of scalars.
unfoldable pub values_eq : List Scalar → List Scalar → Bool
values_eq [] [] = true
values_eq (a ∷ xs) (b ∷ ys) = py_eq a b && values_eq xs ys
values_eq _ _ = false

abbrev pub combos_eq : List (List Text) → List (List Text) → Bool
combos_eq [] [] = true
combos_eq (c ∷ cs) (d ∷ ds) = texts_eq c d && combos_eq cs ds
combos_eq _ _ = false

-- The key is absent on both sides, or there on both with equal values.
abbrev pub kind_eq {ℓ} : {V : Type ℓ} → (V → V → Bool) → Option V → Option V → Bool
kind_eq eq none none = true
kind_eq eq (some a) (some b) = eq a b
kind_eq eq _ _ = false

-- Objects that are compared are normalised and have no other kinds.
abbrev pub others_eq : Dict Value → Dict Value → Bool
others_eq [] [] = true
others_eq _ _ = false

unfoldable pub constraints_eq : Constraints → Constraints → Bool
unfolding values_eq
constraints_eq c d =
    kind_eq (dict_eq values_eq) c.forbidden_values d.forbidden_values
    && kind_eq (dict_eq values_eq) c.allowed_values d.allowed_values
    && kind_eq (dict_eq text_eq) c.starts_with d.starts_with
    && kind_eq (dict_eq eq_ℤ) c.max_value d.max_value
    && kind_eq (dict_eq eq_ℤ) c.min_value d.min_value
    && kind_eq texts_eq c.required_present d.required_present
    && kind_eq combos_eq c.forbidden_field_combinations d.forbidden_field_combinations
    && others_eq c.other_kinds d.other_kinds
