-- ===== src/Wire/Intents.antt =====
-- The intent of a token is read back from its object.
use raucle.Prelude.{
  ◌≡◌, refl, ap, ◌∙◌, true, false, not, ◌&&◌, &&_true, Bool, Option, none, some, List, [], ◌∷◌,
  ◌<|>◌, map, all,
}
use raucle.Text.{Text, text, text_eq, is_empty}
use raucle.Json.{Fields, get_field}
use raucle.Json.Objects.{str_value, members}
use raucle.Result.{ok, require, bad_intent}
use raucle.Constraints.{Constraints}
use raucle.Token.{
  Intent, to_items, list_value, constraints_value, given, intent_members, intent_value,
}
use raucle.Issuer.{nonempty_tools, validate_intent}
use raucle.Wire.{
  read_tools, read_intent_tools, read_intent_constraints, read_statement, read_intent_object,
  read_intent,
}
use raucle.Wire.Lookup.{get_field-members}
use raucle.Wire.Kinds.{constraints-read}

-- The constraints of the intent, if it has some, are of kinds in the registry.
abbrev pub HasKnownKinds : Option Constraints → Type 0
HasKnownKinds none = Unit
HasKnownKinds (some c) = c.other_kinds ≡ []

abbrev pub IsRegistered : Option Intent → Type 0
IsRegistered none = Unit
IsRegistered (some i) = HasKnownKinds i.constraints

tools-items :
    (ts : List Text)
    → all (λ s. not (is_empty s)) ts ≡ true
    → read_tools (to_items (map str_value ts)) ≡ ok ts
unfolding read_tools
tools-items [] h = refl
tools-items (t ∷ ts) h =
    let (first, rest) = &&_true (not (is_empty t)) _ h in rw (first, tools-items ts rest) refl

tools-read :
    (o : Option (List Text))
    → nonempty_tools o ≡ true
    → read_intent_tools (given (list_value str_value) o <|> none) ≡ ok o
unfolding read_intent_tools
tools-read none h = refl
tools-read (some []) h = cc
tools-read (some (t ∷ ts)) h = rw (tools-items (t ∷ ts) h) refl

constraints-found :
    (o : Option Constraints)
    → HasKnownKinds o
    → read_intent_constraints (given constraints_value o <|> none) ≡ ok o
unfolding read_intent_constraints constraints_value
constraints-found none h = refl
constraints-found (some c) h = rw (constraints-read c h) refl

statement-read : (s : Text) → not (is_empty s) ≡ true → read_statement (some (str_value s)) ≡ ok s
statement-read s h = rw h refl

intent_object-of :
    (fs : Fields) (i : Intent)
    → read_statement (get_field (text "statement") fs) ≡ ok i.statement
    → read_intent_tools (get_field (text "tools") fs) ≡ ok i.tools
    → read_intent_constraints (get_field (text "constraints") fs) ≡ ok i.constraints
    → read_intent_object fs ≡ ok i
unfolding read_intent_object
intent_object-of fs i e₀ e₁ e₂ = rw (e₀, e₁, e₂) refl

intent-valid :
    (i : Intent)
    → validate_intent (some i) ≡ ok tt
    → (not (is_empty i.statement) ≡ true) × (nonempty_tools i.tools ≡ true)
unfolding validate_intent
intent-valid i h = &&_true _ _ (by_test (not (is_empty i.statement) && nonempty_tools i.tools) h)
  where
    by_test : (b : Bool) → require b bad_intent ≡ ok tt → b ≡ true
    by_test true h = refl
    by_test false h = cc

-- An intent in the shape that the issuer accepts is read as it is.
pub intent-read :
    (o : Option Intent)
    → validate_intent o ≡ ok tt
    → IsRegistered o
    → read_intent ((given intent_value o <|> none) <|> none) ≡ ok o
unfolding read_intent text_eq
intent-read none h r = refl
intent-read (some i) h r =
    let (statement, tools) = intent-valid i h in
    let fs : Fields = members (intent_members i) in
    let made : read_intent_object fs ≡ ok i =
      intent_object-of fs i
        (ap read_statement (get_field-members (text "statement") (intent_members i))
          ∙ statement-read i.statement statement)
        (ap read_intent_tools (get_field-members (text "tools") (intent_members i))
          ∙ tools-read i.tools tools)
        (ap read_intent_constraints (get_field-members (text "constraints") (intent_members i))
          ∙ constraints-found i.constraints r) in
    rw made refl
