-- ===== src/Delegation/Assert.antt =====
-- `_assert_narrowing`: the run-time test that a merged object widens nothing.
use raucle.Prelude.{Bool, true, false, none, some, List, [], ◌∷◌, all, or_default, if◌then◌else◌}
use raucle.Prelude.Int.{ltb_ℤ}
use raucle.Json.{Scalar}
use raucle.Dict.{Dict, get}
use raucle.Result.{Result, ok, widened, ◌>>◌, require}
use raucle.Constraints.{Constraints, has_id}

-- `for fld, v in parent.items()`, where the child has the field too.
unfoldable pub each_common {ℓ} : {V : Type ℓ} → (V → V → Bool) → Dict V → Dict V → Result (Unit {0})
each_common test child [] = ok tt
each_common test child ((fld, v) ∷ parent) =
    let rest = each_common test child parent in
    elim (get fld child) [ none ↦ rest | some w ↦ require (test v w) widened >> rest ]

-- `{_vid(v) for v in a} <= {_vid(v) for v in b}`
abbrev pub subset_values : List Scalar → List Scalar → Bool
subset_values a b = all (λ v. has_id b v) a

-- `_assert_allowed_narrows`, `_assert_forbidden_grows` and `_assert_bounds_tighten` (twice).
unfoldable pub assert_narrowing : Constraints → Constraints → Result (Unit {0})
unfolding each_common
assert_narrowing parent child = do
  each_common (λ vals cvals. subset_values cvals vals) (or_default child.allowed_values [])
      (or_default parent.allowed_values [])
  each_common (λ vals cvals. subset_values vals cvals) (or_default child.forbidden_values [])
      (or_default parent.forbidden_values [])
  each_common (λ bound cbound. if ltb_ℤ bound cbound then false else true)
      (or_default child.max_value []) (or_default parent.max_value [])
  each_common (λ bound cbound. if ltb_ℤ cbound bound then false else true)
      (or_default child.min_value []) (or_default parent.min_value [])
