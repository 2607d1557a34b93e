-- ===== src/Wire.antt =====
-- `Capability.to_dict` and `from_dict` (raucle/capability.py), between a token and the JSON object that is
-- stored or sent. `from_dict` keeps the hashes, the second signature and the members of the constraints
-- as they come; here they are read into the types of `Capability`, and one that has another type is
-- refused.
pub mod Lookup
pub mod Kinds
pub mod Intents
pub mod Back
use raucle.Prelude.{
  Bool, true, not, Option, none, some, List, [], ◌∷◌, all, or_default, if◌then◌else◌,
}
use raucle.Prelude.Int.{ℤ}
use raucle.Text.{Text, text, is_empty}
use raucle.Json.{null, int, str, Value, scalar, arr, obj, Items, nil, cons, Fields, get_field}
use raucle.Json.Objects.{str_value, text_of, truthy, members, append_fields}
use raucle.Platform.{Platform}
use raucle.Result.{
  Result, ok, err, ◌>>=◌, ◌>>◌, require, bad_token_field, bad_agent_id, bad_tool, bad_principal,
  bad_intent, bad_shape,
}
use raucle.Constraints.{Constraints, read_constraints}
use raucle.Token.{Intent, Capability, given, body, is_agent_id, is_tool, is_principal}

-- `self.pq_signature or ""`, where there is a key id.
abbrev pub pq_member : Option Text → Option Text → Option Text
pq_member none s = none
pq_member (some k) s = some (or_default s [])

-- The members that `to_dict` adds to the body.
abbrev pub seal_members : Capability → List (Text × Option Value)
seal_members c =
    (text "token_id", some (str_value c.token_id))
    ∷ (text "signature", some (str_value c.signature))
    ∷ (text "pq_key_id", given str_value c.pq_key_id)
    ∷ (text "pq_signature", given str_value (pq_member c.pq_key_id c.pq_signature))
    ∷ []

-- `to_dict`, which raises where the constraints cannot be normalised.
unfoldable pub to_dict : Platform → Capability → Result Fields
to_dict p c = body p c >>= λ b. ok (append_fields b (members (seal_members c)))

-- `d.get("token_id", "")`, `d.get("signature", "")` and `d.get("parent_id")`; a parent that is no text counts as none.
abbrev pub dict_token_id : Fields → Text
dict_token_id d = text_of (get_field (text "token_id") d)

abbrev pub dict_signature : Fields → Text
dict_signature d = text_of (get_field (text "signature") d)

abbrev pub text_or_none : Option Value → Option Text
text_or_none (some (scalar (str s))) = some s
text_or_none _ = none

abbrev pub dict_parent_id : Fields → Option Text
dict_parent_id d = text_or_none (get_field (text "parent_id") d)

-- `_require_token_str_field`
unfoldable pub read_named : Option Value → Result Text
read_named (some (scalar (str s))) = require (not (is_empty s)) bad_token_field >> ok s
read_named _ = err bad_token_field

abbrev pub read_text : Option Value → Result Text
read_text (some (scalar (str s))) = ok s
read_text _ = err bad_token_field

-- A member that may be absent or null.
unfoldable pub read_optional : Option Value → Result (Option Text)
read_optional none = ok none
read_optional (some (scalar null)) = ok none
read_optional (some (scalar (str s))) = ok (some s)
read_optional (some _) = err bad_token_field

-- `isinstance(d.get("constraints"), dict)`
unfoldable pub read_constraint_object : Option Value → Result Constraints
read_constraint_object (some (obj c)) = read_constraints c
read_constraint_object _ = err bad_shape

-- `_parse_token_acting_for`: what is false in Python passes without a test and names no user.
unfoldable pub read_acting_for : Option Value → Result Text
read_acting_for none = ok []
read_acting_for (some (scalar (str s))) =
    require (if is_empty s then true else is_principal s) bad_principal >> ok s
read_acting_for (some v) = if truthy (some v) then err bad_principal else ok []

unfoldable pub read_tools : Items → Result (List Text)
read_tools nil = ok []
read_tools (cons (scalar (str s)) xs) =
    require (not (is_empty s)) bad_intent >> (read_tools xs >>= λ ts. ok (s ∷ ts))
read_tools (cons _ xs) = err bad_intent

-- `intent.get("tools")`: absent, null, or a list of texts that is not empty.
unfoldable pub read_intent_tools : Option Value → Result (Option (List Text))
unfolding read_tools
read_intent_tools none = ok none
read_intent_tools (some (scalar null)) = ok none
read_intent_tools (some (arr (cons v xs))) = read_tools (cons v xs) >>= λ ts. ok (some ts)
read_intent_tools (some _) = err bad_intent

unfoldable pub read_intent_constraints : Option Value → Result (Option Constraints)
read_intent_constraints none = ok none
read_intent_constraints (some (scalar null)) = ok none
read_intent_constraints (some (obj c)) = read_constraints c >>= λ n. ok (some n)
read_intent_constraints (some _) = err bad_intent

abbrev pub read_statement : Option Value → Result Text
read_statement (some (scalar (str s))) = require (not (is_empty s)) bad_intent >> ok s
read_statement _ = err bad_intent

unfoldable pub read_intent_object : Fields → Result Intent
unfolding read_intent_tools read_intent_constraints
read_intent_object i = do
  statement ← read_statement (get_field (text "statement") i)
  tools ← read_intent_tools (get_field (text "tools") i)
  constraints ← read_intent_constraints (get_field (text "constraints") i)
  ok (record { statement = statement; tools = tools; constraints = constraints })

-- `_parse_token_intent`
unfoldable pub read_intent : Option Value → Result (Option Intent)
unfolding read_intent_object
read_intent none = ok none
read_intent (some (scalar null)) = ok none
read_intent (some (obj i)) = read_intent_object i >>= λ n. ok (some n)
read_intent (some _) = err bad_intent

-- `_parse_token_parent_id`: absent, null, or a text that is not empty.
unfoldable pub read_parent_id : Option Value → Result (Option Text)
read_parent_id none = ok none
read_parent_id (some (scalar null)) = ok none
read_parent_id (some (scalar (str s))) = require (not (is_empty s)) bad_token_field >> ok (some s)
read_parent_id (some _) = err bad_token_field

-- One round of `_parse_token_timestamps`: an integer, and no bool.
abbrev pub read_time : Option Value → Result ℤ
read_time (some (scalar (int n))) = ok n
read_time _ = err bad_token_field

-- `from_dict`
unfoldable pub from_dict : Fields → Result Capability
unfolding read_named read_optional read_constraint_object read_acting_for read_intent read_parent_id
from_dict d = do
  token_id ← read_named (get_field (text "token_id") d)
  agent_id ← read_named (get_field (text "agent_id") d)
  tool ← read_named (get_field (text "tool") d)
  issuer ← read_named (get_field (text "issuer") d)
  key_id ← read_named (get_field (text "key_id") d)
  require (is_agent_id agent_id) bad_agent_id
  require (is_tool tool) bad_tool
  constraints ← read_constraint_object (get_field (text "constraints") d)
  acting_for ← read_acting_for (get_field (text "acting_for") d)
  intent ← read_intent (get_field (text "intent") d)
  parent_id ← read_parent_id (get_field (text "parent_id") d)
  signature ← read_text (get_field (text "signature") d)
  issued_at ← read_time (get_field (text "issued_at") d)
  not_before ← read_time (get_field (text "not_before") d)
  expires_at ← read_time (get_field (text "expires_at") d)
  policy_proof_hash ← read_optional (get_field (text "policy_proof_hash") d)
  grammar_hash ← read_optional (get_field (text "grammar_hash") d)
  policy_hash ← read_optional (get_field (text "policy_hash") d)
  pq_key_id ← read_optional (get_field (text "pq_key_id") d)
  pq_signature ← read_optional (get_field (text "pq_signature") d)
  ok (record {
    token_id = token_id;
    agent_id = agent_id;
    tool = tool;
    constraints = constraints;
    issuer = issuer;
    key_id = key_id;
    issued_at = issued_at;
    not_before = not_before;
    expires_at = expires_at;
    parent_id = parent_id;
    intent = intent;
    acting_for = acting_for;
    policy_proof_hash = policy_proof_hash;
    grammar_hash = grammar_hash;
    policy_hash = policy_hash;
    signature = signature;
    pq_key_id = pq_key_id;
    pq_signature = pq_signature;
  })
