-- ===== src/Text/Order.antt =====
-- raucle/_canon.py: the order of texts by UTF-16 code units, and the ban on lone surrogates.
use raucle.Prelude.{
  ℕ, ◌+◌, ◌-◌, ◌/◌, ◌%◌, Bool, true, false, ◌&&◌, List, [], ◌∷◌, ◌++◌, ltb, leb, ◌==◌, not, any,
  if◌then◌else◌,
}
use raucle.Text.Defs.{Text}

-- Whether `reject_lone_surrogates` lets the text pass.
unfoldable pub no_surrogates : Text → Bool
no_surrogates s = not (any (λ c. leb 0xD800 c && leb c 0xDFFF) s)

-- The code units of one code point.
abbrev units : ℕ → List ℕ
units c =
    if ltb c 0x10000
    then c ∷ []
    else (0xD800 + (c - 0x10000) / 1024) ∷ (0xDC00 + (c - 0x10000) % 1024) ∷ []

-- `s.encode("utf-16-be")`, as its sixteen-bit units: bytes and units compare alike.
unfoldable pub utf16_key : Text → List ℕ
utf16_key [] = []
utf16_key (c ∷ s) = units c ++ utf16_key s

-- Lexicographic `<=`.
abbrev pub lex_le : List ℕ → List ℕ → Bool
lex_le [] t = true
lex_le (a ∷ s) [] = false
lex_le (a ∷ s) (b ∷ t) = elim (a == b) [ true ↦ lex_le s t | false ↦ ltb a b ]

unfoldable pub utf16_le : Text → Text → Bool
unfolding utf16_key
utf16_le s t = lex_le (utf16_key s) (utf16_key t)
