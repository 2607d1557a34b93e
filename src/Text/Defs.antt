-- ===== src/Text/Defs.antt =====
-- Texts, their equality test and `startswith`.
use Prim.Native.Char.{code}
use raucle.Prelude.{ℕ, String, Bool, true, false, ◌&&◌, List, [], ◌∷◌, ◌==◌}

abbrev pub Text : Type 0
Text = List ℕ

-- The code points of a literal.
abbrev pub text : String → Text
text String.[] = []
text (String.◌∷◌ c s) = code c ∷ text s

unfoldable pub text_eq : Text → Text → Bool
text_eq [] [] = true
text_eq (a ∷ s) (b ∷ t) = (a == b) && text_eq s t
text_eq _ _ = false

-- `s.startswith(p)`, as `starts_with p s`.
unfoldable pub starts_with : Text → Text → Bool
starts_with [] s = true
starts_with (a ∷ p) [] = false
starts_with (a ∷ p) (b ∷ s) = (a == b) && starts_with p s

-- `not s`
abbrev pub is_empty : Text → Bool
is_empty [] = true
is_empty (c ∷ s) = false

-- `t in ts`
abbrev pub mem_text : Text → List Text → Bool
mem_text t [] = false
mem_text t (s ∷ ts) = elim (text_eq s t) [ true ↦ true | false ↦ mem_text t ts ]

-- `==` on lists of texts.
abbrev pub texts_eq : List Text → List Text → Bool
texts_eq [] [] = true
texts_eq (s ∷ ss) (t ∷ ts) = text_eq s t && texts_eq ss ts
texts_eq _ _ = false
