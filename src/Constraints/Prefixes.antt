-- ===== src/Constraints/Prefixes.antt =====
-- Longer prefixes are tighter, where no file URI is in play.
use raucle.Prelude.{
  ◌≡◌, refl, Bool, true, false, Option, none, some, arith, Bool-cases, inl, inr, All, or_default,
  [],
}
use raucle.Text.{Text, text, starts_with_trans, starts_with_total}
use raucle.Text
use raucle.Json.{Value, scalar, arr, obj, null, bool, int, float, str, Fields, get_field}
use raucle.Platform.{Platform}
use raucle.Constraints.Defs.{Constraints}
use raucle.Constraints.FileUri.{canonical_file_uri}
use raucle.Constraints.Check.{prefix_matches, string_matches, starts_with_entry}

-- `value.startswith("file://")`
abbrev pub is_file_uri : Text → Bool
is_file_uri s = Text.starts_with (text "file://") s

abbrev pub IsPlain : Text × Text → Type 0
IsPlain (k, v) = is_file_uri v ≡ false

-- No `starts_with` prefix of the object is a file URI.
abbrev pub HasPlainPrefixes : Constraints → Type 0
HasPlainPrefixes c = All IsPlain (or_default c.starts_with [])

canonical-plain : (p : Platform) (v : Text) → is_file_uri v ≡ false → canonical_file_uri p v ≡ none
unfolding canonical_file_uri
canonical-plain p v h = rw h

canonical-is_file :
    (p : Platform) (v : Text) {u : Text} → canonical_file_uri p v ≡ some u → is_file_uri v ≡ true
canonical-is_file p v h = elim (Bool-cases (is_file_uri v)) [
  | inl yes_file ↦ yes_file
  | inr plain ↦ cc (canonical-plain p v plain)
]

-- A text that starts with an extension of a plain prefix matches the prefix.
pub prefix_matches_mono :
    (p : Platform) (v w value : Text)
    → is_file_uri v ≡ false
    → Text.starts_with v w ≡ true
    → prefix_matches p w value ≡ true
    → prefix_matches p v value ≡ true
unfolding prefix_matches
prefix_matches_mono p v w value plain ext h =
    rw (canonical-plain p v plain, prefix_matches)
      (go (canonical_file_uri p w) (canonical_file_uri p value) refl refl h)
  where
    go :
        (cw cv : Option Text)
        → canonical_file_uri p w ≡ cw
        → canonical_file_uri p value ≡ cv
        → elim cw [
          | none ↦ Text.starts_with w value
          | some a ↦ elim cv [ none ↦ Text.starts_with w value | some b ↦ Text.starts_with a b ]
        ]
          ≡ true
        → Text.starts_with v value ≡ true
    go none cv ew ev k = starts_with_trans v w value ext k
    go (some a) none ew ev k = starts_with_trans v w value ext k
    go (some a) (some b) ew ev k =
        starts_with_trans v (text "file://") value
          (starts_with_total (text "file://") v w (canonical-is_file p w ew) ext plain)
          (canonical-is_file p value ev)

string_matches_mono :
    (p : Platform) (fld v w : Text) (o : Option Value)
    → is_file_uri v ≡ false
    → Text.starts_with v w ≡ true
    → string_matches p fld w o ≡ none
    → string_matches p fld v o ≡ none
string_matches_mono p fld v w none plain ext h = cc
string_matches_mono p fld v w (some (scalar (str value))) plain ext h =
    ground (arith, prefix_matches_mono p v w value plain ext)
string_matches_mono p fld v w (some (scalar null)) plain ext h = cc
string_matches_mono p fld v w (some (scalar (bool b))) plain ext h = cc
string_matches_mono p fld v w (some (scalar (int n))) plain ext h = cc
string_matches_mono p fld v w (some (scalar (float x))) plain ext h = cc
string_matches_mono p fld v w (some (arr xs)) plain ext h = cc
string_matches_mono p fld v w (some (obj fs)) plain ext h = cc

pub starts_with_entry_mono :
    (p : Platform) (args : Fields) (fld v w : Text)
    → is_file_uri v ≡ false
    → Text.starts_with v w ≡ true
    → starts_with_entry p args (fld, w) ≡ none
    → starts_with_entry p args (fld, v) ≡ none
unfolding starts_with_entry
starts_with_entry_mono p args fld v w = string_matches_mono p fld v w (get_field fld args)
