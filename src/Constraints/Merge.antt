-- ===== src/Constraints/Merge.antt =====
-- `_merge_narrowing`: the tighter of two constraint objects on every kind.
use raucle.Prelude.{Bool, Option, none, some, List, [], ◌∷◌, ◌++◌, any, or_default, if◌then◌else◌}
use raucle.Prelude.Int.{ℤ, min_ℤ, max_ℤ}
use raucle.Prelude.Sort.{sort}
use raucle.Text
use raucle.Text.{Text, text_eq, mem_text, texts_eq}
use raucle.Json.{Scalar, same_value}
use raucle.Platform.{Platform}
use raucle.Dict.{Dict, get, put}
use raucle.Result.{Result, ok, err, broader_prefix, disjoint_prefix, ◌>>=◌}
use raucle.Constraints.Defs.{Constraints}
use raucle.Constraints.Normalise.{normalise_constraints, names_le}

-- `_vid(v) in ids`
abbrev pub has_id : List Scalar → Scalar → Bool
has_id vs v = any (λ w. same_value w v) vs

-- The values in order, each JSON value once.
unfoldable pub distinct_values : List Scalar → List Scalar → List Scalar
distinct_values seen [] = []
distinct_values seen (v ∷ vs) =
    let skip = distinct_values seen vs in
    let keep = v ∷ distinct_values (v ∷ seen) vs in if has_id seen v then skip else keep

unfoldable pub union_values : List Scalar → List Scalar → List Scalar
unfolding distinct_values
union_values a b = distinct_values [] (a ++ b)

-- The members of the first list whose JSON value is in the second.
unfoldable pub common_values : List Scalar → List Scalar → List Scalar
common_values b [] = []
common_values b (v ∷ vs) = let rest = common_values b vs in if has_id b v then v ∷ rest else rest

unfoldable pub intersect_values : List Scalar → List Scalar → List Scalar
unfolding common_values distinct_values
intersect_values a b = distinct_values [] (common_values b a)

-- What stands under a field after the merge, from what stood there and the new value.
abbrev pub join_forbidden : Option (List Scalar) → List Scalar → Result (List Scalar)
join_forbidden old vals = ok (union_values (or_default old []) vals)

abbrev pub join_allowed : Option (List Scalar) → List Scalar → Result (List Scalar)
join_allowed none vals = ok (union_values vals [])
join_allowed (some old) vals = ok (intersect_values old vals)

-- `_merge_starts_with`
abbrev pub join_prefix : Option Text → Text → Result Text
join_prefix none prefix = ok prefix
join_prefix (some old) prefix =
    if Text.starts_with old prefix
    then ok prefix
    else if Text.starts_with prefix old
    then err broader_prefix
    else err disjoint_prefix

abbrev pub join_max : Option ℤ → ℤ → Result ℤ
join_max none bound = ok bound
join_max (some old) bound = ok (min_ℤ old bound)

abbrev pub join_min : Option ℤ → ℤ → Result ℤ
join_min none bound = ok bound
join_min (some old) bound = ok (max_ℤ old bound)

-- `for fld, v in extra.items(): out[fld] = join(out.get(fld), v)`
unfoldable pub merge_entries {ℓ} :
    {V : Type ℓ} → (Option V → V → Result V) → Dict V → Dict V → Result (Dict V)
merge_entries join out [] = ok out
merge_entries join out ((fld, v) ∷ extra) =
    join (get fld out) v >>= λ w. merge_entries join (put fld w out) extra

-- A kind is added to the result only when the loop runs.
abbrev pub merge_kind {ℓ} :
    {V : Type ℓ}
    → (Option V → V → Result V)
    → Option (Dict V)
    → Option (Dict V)
    → Result (Option (Dict V))
merge_kind join out none = ok out
merge_kind join out (some []) = ok out
merge_kind join out (some (e ∷ es)) = do
  d ← merge_entries join (or_default out []) (e ∷ es)
  ok (some d)

-- The set of the texts, and the set of the sorted combinations, as lists.
unfoldable pub distinct_texts : List Text → List Text → List Text
distinct_texts seen [] = []
distinct_texts seen (t ∷ ts) =
    let skip = distinct_texts seen ts in
    let keep = t ∷ distinct_texts (t ∷ seen) ts in if mem_text t seen then skip else keep

abbrev pub merge_required : Option (List Text) → Option (List Text) → Option (List Text)
merge_required out none = out
merge_required out (some ks) = some (sort Text.lex_le (distinct_texts [] (or_default out [] ++ ks)))

unfoldable pub distinct_combos : List (List Text) → List (List Text) → List (List Text)
distinct_combos seen [] = []
distinct_combos seen (c ∷ cs) =
    let sorted = sort Text.lex_le c in
    let skip = distinct_combos seen cs in
    let keep = sorted ∷ distinct_combos (sorted ∷ seen) cs in
    if any (λ d. texts_eq d sorted) seen then skip else keep

abbrev pub merge_combos :
    Option (List (List Text)) → Option (List (List Text)) → Option (List (List Text))
merge_combos out none = out
merge_combos out (some cs) =
    some (sort (names_le Text.lex_le) (distinct_combos [] (or_default out [] ++ cs)))

-- The merge before `_normalise_constraints`: a copy of the parent, with every kind of it tightened by
-- the extra object. No loop reads the extra object under another key.
unfoldable pub merge_kinds : Constraints → Constraints → Result Constraints
unfolding merge_entries distinct_texts distinct_combos
merge_kinds parent extra = do
  forbidden ← merge_kind join_forbidden parent.forbidden_values extra.forbidden_values
  allowed ← merge_kind join_allowed parent.allowed_values extra.allowed_values
  prefixes ← merge_kind join_prefix parent.starts_with extra.starts_with
  above ← merge_kind join_max parent.max_value extra.max_value
  below ← merge_kind join_min parent.min_value extra.min_value
  ok (record {
    forbidden_values = forbidden;
    allowed_values = allowed;
    starts_with = prefixes;
    max_value = above;
    min_value = below;
    required_present = merge_required parent.required_present extra.required_present;
    forbidden_field_combinations =
        merge_combos parent.forbidden_field_combinations extra.forbidden_field_combinations;
    other_kinds = parent.other_kinds;
  })

unfoldable pub merge_narrowing : Platform → Constraints → Constraints → Result Constraints
merge_narrowing p parent extra = do
  merged ← merge_kinds parent extra
  normalise_constraints p merged
