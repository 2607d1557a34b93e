-- ===== src/Constraints/FileUri.antt =====
-- `_canonical_file_uri`: percent-decoding, dot segments and repeated slashes of a file URI.
use raucle.Prelude.{
  ℕ, zero, suc, Bool, true, false, ◌&&◌, ◌||◌, Option, none, some, List, [], ◌∷◌, ◌++◌, ltb, ◌==◌,
  length, if◌then◌else◌,
}
use raucle.Text.{Text, text, text_eq, starts_with}
use mathlib.Core.List.{reverse}
use raucle.Platform.{Platform}

abbrev pub slash : ℕ
slash = b'/'

unfoldable pub push_char : ℕ → List Text → List Text
push_char c [] = (c ∷ []) ∷ []
push_char c (s ∷ ss) = (c ∷ s) ∷ ss

-- `path.split("/")`
unfoldable pub split_slash : Text → List Text
unfolding push_char
split_slash [] = [] ∷ []
split_slash (c ∷ s) = let rest = split_slash s in if c == slash then [] ∷ rest else push_char c rest

-- `"/".join(segments)`
unfoldable pub join_slash : List Text → Text
join_slash [] = []
join_slash (s ∷ []) = s
join_slash (s ∷ t ∷ ss) = s ++ (slash ∷ join_slash (t ∷ ss))

-- `segments.pop()`
unfoldable pub pop_segment : List Text → List Text
pop_segment [] = []
pop_segment (s ∷ ss) = ss

-- One round of the loop over the segments; `kept` is in reverse.
unfoldable pub keep_segment : List Text → Text → List Text
unfolding pop_segment
keep_segment kept seg =
    if text_eq seg (text ".")
    then kept
    else if text_eq seg (text "..")
    then (if ltb 1 (length kept) then pop_segment kept else kept)
    else seg ∷ kept

unfoldable pub resolve_segments : List Text → List Text → List Text
unfolding keep_segment
resolve_segments kept [] = reverse kept
resolve_segments kept (seg ∷ segs) = resolve_segments (keep_segment kept seg) segs

-- `"//" in s`
unfoldable pub has_double : Text → Bool
has_double [] = false
has_double (c ∷ []) = false
has_double (c ∷ d ∷ s) = (c == slash && d == slash) || has_double (d ∷ s)

-- `s.replace("//", "/")`
unfoldable pub replace_double : Text → Text
replace_double [] = []
replace_double (c ∷ []) = c ∷ []
replace_double (c ∷ d ∷ s) =
    if c == slash && d == slash then c ∷ replace_double s else c ∷ replace_double (d ∷ s)

-- `while "//" in s: s = s.replace("//", "/")`, with as much fuel as the text is long.
unfoldable pub collapse : ℕ → Text → Text
unfolding has_double replace_double
collapse zero s = s
collapse (suc fuel) s = elim (has_double s) [ true ↦ collapse fuel (replace_double s) | false ↦ s ]

unfoldable pub canonical_file_uri : Platform → Text → Option Text
unfolding split_slash join_slash resolve_segments collapse
canonical_file_uri p value =
    if starts_with (text "file://") value
    then elim (p.url_path value) [
      | none ↦ some []
      | some path ↦
          (let resolved = join_slash (resolve_segments [] (split_slash path)) in
            some (text "file://" ++ collapse (length resolved) resolved))
    ]
    else none
