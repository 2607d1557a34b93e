-- ===== src/Token/Identifiers.antt =====
-- The regular expressions for agent ids, principals and tools, and the scope test on agent ids.
use raucle.Prelude.{ℕ, zero, suc, Bool, true, false, ◌&&◌, ◌||◌, [], ◌∷◌, ◌++◌, leb, ◌==◌}
use raucle.Text.{Text, text, text_eq, starts_with}

abbrev pub is_lower_or_digit : ℕ → Bool
is_lower_or_digit c = (leb b'a' c && leb c b'z') || (leb b'0' c && leb c b'9')

-- `$`: the end, or a newline before the end.
abbrev pub at_end : Text → Bool
at_end [] = true
at_end (c ∷ []) = c == 10
at_end (c ∷ d ∷ s) = false

-- `[a-z0-9]?$`
abbrev pub finishes : Text → Bool
finishes [] = true
finishes (c ∷ s) = at_end (c ∷ s) || (is_lower_or_digit c && at_end s)

-- `(?=[a-z0-9])`
abbrev pub looks_at_alnum : Text → Bool
looks_at_alnum [] = false
looks_at_alnum (c ∷ s) = is_lower_or_digit c

-- `[a-z0-9_\-]|\.(?=[a-z0-9])` at `c`, with the text behind it.
abbrev pub group_char : ℕ → Text → Bool
group_char c s = is_lower_or_digit c || c == b'_' || c == b'-' || (c == b'.' && looks_at_alnum s)

-- `(?:…){0,n}[a-z0-9]?$`
unfoldable pub id_tail : ℕ → Text → Bool
id_tail zero s = finishes s
id_tail (suc n) [] = true
id_tail (suc n) (c ∷ s) = let rest = id_tail n s in finishes (c ∷ s) || (group_char c s && rest)

-- `[a-z0-9]` and the tail.
abbrev pub id_body : Text → Bool
id_body [] = false
id_body (c ∷ s) = is_lower_or_digit c && id_tail 126 s

-- The text behind a literal prefix matches.
abbrev pub after : Text → (Text → Bool) → Text → Bool
after [] f s = f s
after (a ∷ p) f [] = false
after (a ∷ p) f (b ∷ s) = (a == b) && after p f s

-- `_AGENT_ID_RE.match`
unfoldable pub is_agent_id : Text → Bool
unfolding id_tail
is_agent_id s = after (text "agent:") id_body s

-- `_PRINCIPAL_RE.match`
unfoldable pub is_principal : Text → Bool
unfolding id_tail
is_principal s = after (text "agent:") id_body s || after (text "user:") id_body s

abbrev is_alnum : ℕ → Bool
is_alnum c = is_lower_or_digit c || (leb b'A' c && leb c b'Z')

-- `[A-Za-z0-9_\-./]{0,n}$`
tool_tail : ℕ → Text → Bool
tool_tail zero s = at_end s
tool_tail (suc n) [] = true
tool_tail (suc n) (c ∷ s) =
    let rest = tool_tail n s in
    at_end (c ∷ s) || ((is_alnum c || c == b'_' || c == b'-' || c == b'.' || c == b'/') && rest)

abbrev tool_body : Text → Bool
tool_body [] = false
tool_body (c ∷ s) = is_alnum c && tool_tail 127 s

-- `_TOOL_RE.match`
unfoldable pub is_tool : Text → Bool
unfolding tool_tail
is_tool s = tool_body s

-- `agent_id == scope or agent_id.startswith(scope + ".")`
unfoldable pub in_scope : Text → Text → Bool
in_scope scope agent_id = text_eq agent_id scope || starts_with (scope ++ text ".") agent_id
