-- ===== src/Token/Grammar.antt =====
-- What `_AGENT_ID_RE` lets through.
use raucle.Prelude.{
  ◌≡◌, refl, Bool, true, not, ◌&&◌, ◌||◌, [], ◌∷◌, ◌++◌, arith, ℕ, zero, suc, ◌+◌, ◌≤◌, length,
  ◌==◌, &&_true,
}
use raucle.Text.{Text, text}
use raucle.Token.Identifiers.{
  finishes, looks_at_alnum, id_tail, id_body, is_agent_id, after, is_lower_or_digit,
}

-- Each dot has a letter or a digit behind it.
abbrev pub dots_separate : Text → Bool
dots_separate [] = true
dots_separate (c ∷ s) = (not (c == b'.') || looks_at_alnum s) && dots_separate s

finishes-dots : (s : Text) → finishes s ≡ true → dots_separate s ≡ true
finishes-dots [] h = refl
finishes-dots (c ∷ []) h = ground arith
finishes-dots (c ∷ d ∷ []) h = ground arith
finishes-dots (c ∷ d ∷ e ∷ s) h = ground arith

finishes-length : (s : Text) → finishes s ≡ true → length s ≤ 2
finishes-length [] h = omega arith
finishes-length (c ∷ []) h = omega arith
finishes-length (c ∷ d ∷ []) h = omega arith
finishes-length (c ∷ d ∷ e ∷ s) h = ground arith

tail-dots : (n : ℕ) (s : Text) → id_tail n s ≡ true → dots_separate s ≡ true
unfolding id_tail
tail-dots zero s h = finishes-dots s h
tail-dots (suc n) [] h = refl
tail-dots (suc n) (c ∷ s) h = ground (arith, finishes-dots (c ∷ s), tail-dots n s)

tail-length : (n : ℕ) (s : Text) → id_tail n s ≡ true → length s ≤ n + 2
unfolding id_tail
tail-length zero s h = finishes-length s h
tail-length (suc n) [] h = omega arith
tail-length (suc n) (c ∷ s) h = ground (arith, finishes-length (c ∷ s), tail-length n s)

body-dots : (s : Text) → id_body s ≡ true → dots_separate s ≡ true
body-dots [] h = refl
body-dots (c ∷ s) h =
    let (letter, rest) = &&_true (is_lower_or_digit c) _ h in ground (arith, tail-dots 126 s rest)

body-length : (s : Text) → id_body s ≡ true → length s ≤ 129
body-length [] h = omega arith
body-length (c ∷ s) h =
    let (letter, rest) = &&_true (is_lower_or_digit c) _ h in
    let k = tail-length 126 s rest in omega arith

behind_prefix :
    (q : Text) (f : Text → Bool) (s : Text)
    → after q f s ≡ true
    → (r : Text) × (s ≡ q ++ r) × (f r ≡ true)
behind_prefix [] f s h = (s, refl, h)
behind_prefix (a ∷ q) f [] h = cc
behind_prefix (a ∷ q) f (b ∷ s) h =
    let (same, rest) = &&_true (a == b) _ h in
    let (r, e, k) = behind_prefix q f s rest in (r, ground (arith, e), k)

-- An accepted agent id is `agent:` and at most 129 characters, and each dot in it has a letter or a digit
-- behind it: an id neither ends with a dot nor has two dots in a row.
pub agent_id-form :
    (s : Text)
    → is_agent_id s ≡ true
    → (r : Text) × (s ≡ text "agent:" ++ r) × (length r ≤ 129) × (dots_separate r ≡ true)
unfolding is_agent_id
agent_id-form s h =
    let (r, e, k) = behind_prefix (text "agent:") id_body s h in
    (r, e, body-length r k, body-dots r k)
