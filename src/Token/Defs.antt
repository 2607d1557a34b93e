-- ===== src/Token/Defs.antt =====
-- `Capability` and its signed body.
use raucle.Prelude.{Option, none, some, List, [], ◌∷◌, ◌++◌, take, map}
use raucle.Prelude.Int.{ℤ}
use raucle.Text.{Text, text}
use raucle.Json.{null, Value, scalar, arr, obj, Items, nil, cons, Fields, end, field}
use raucle.Json.Objects.{str_value, int_value, members, append_fields}
use raucle.Json.Canon.{canonical_json}
use raucle.Platform.{Platform, Bytes}
use raucle.Dict.{Dict}
use raucle.Result.{Result, ok, ◌>>=◌}
use raucle.Constraints.{Constraints, normalise_constraints}

-- The approved task: the statement, the tools and the constraints of the intent object.
pub record Intent : Type 0 where
  pub statement : Text
  pub tools : Option (List Text)
  pub constraints : Option Constraints

pub record Capability : Type 0 where
  pub token_id : Text
  pub agent_id : Text
  pub tool : Text
  pub constraints : Constraints
  pub issuer : Text
  pub key_id : Text
  pub issued_at : ℤ
  pub not_before : ℤ
  pub expires_at : ℤ
  pub parent_id : Option Text
  pub intent : Option Intent
  pub acting_for : Text
  pub policy_proof_hash : Option Text
  pub grammar_hash : Option Text
  pub policy_hash : Option Text
  pub signature : Text
  pub pq_key_id : Option Text
  pub pq_signature : Option Text

-- JSON of the typed parts.
abbrev pub to_items : List Value → Items
to_items [] = nil
to_items (v ∷ vs) = cons v (to_items vs)

abbrev pub to_fields : Dict Value → Fields
to_fields [] = end
to_fields ((k, v) ∷ d) = field k v (to_fields d)

abbrev pub option_value : Option Text → Value
option_value none = scalar null
option_value (some s) = str_value s

abbrev pub list_value {ℓ} : {A : Type ℓ} → (A → Value) → List A → Value
list_value f xs = arr (to_items (map f xs))

abbrev pub dict_value {ℓ} : {A : Type ℓ} → (A → Value) → Dict A → Value
dict_value f d = obj (to_fields (map (λ e. (e.0, f e.1)) d))

-- The value of a member that is there, and no member where it is not.
abbrev pub given {ℓ} : {A : Type ℓ} → (A → Value) → Option A → Option Value
given f none = none
given f (some a) = some (f a)

-- The kinds of the object, and then what it has under other keys.
abbrev pub kind_members : Constraints → List (Text × Option Value)
kind_members c =
    (text "forbidden_values", given (dict_value (list_value scalar)) c.forbidden_values)
    ∷ (text "allowed_values", given (dict_value (list_value scalar)) c.allowed_values)
    ∷ (text "starts_with", given (dict_value str_value) c.starts_with)
    ∷ (text "max_value", given (dict_value int_value) c.max_value)
    ∷ (text "min_value", given (dict_value int_value) c.min_value)
    ∷ (text "required_present", given (list_value str_value) c.required_present)
    ∷ (
      text "forbidden_field_combinations",
      given (list_value (list_value str_value)) c.forbidden_field_combinations,
    )
    ∷ []

abbrev pub constraints_fields : Constraints → Fields
constraints_fields c = append_fields (members (kind_members c)) (to_fields c.other_kinds)

unfoldable pub constraints_value : Constraints → Value
constraints_value c = obj (constraints_fields c)

abbrev pub intent_members : Intent → List (Text × Option Value)
intent_members i =
    (text "statement", some (str_value i.statement))
    ∷ (text "tools", given (list_value str_value) i.tools)
    ∷ (text "constraints", given constraints_value i.constraints)
    ∷ []

abbrev pub intent_value : Intent → Value
intent_value i = obj (members (intent_members i))

-- `if self.acting_for`
abbrev pub acting_member : Text → Option Value
acting_member [] = none
acting_member (c ∷ s) = some (str_value (c ∷ s))

-- The members of the body, with the normal form of the constraints.
abbrev pub body_members : Capability → Constraints → List (Text × Option Value)
body_members t c =
    (text "agent_id", some (str_value t.agent_id))
    ∷ (text "tool", some (str_value t.tool))
    ∷ (text "constraints", some (constraints_value c))
    ∷ (text "issuer", some (str_value t.issuer))
    ∷ (text "key_id", some (str_value t.key_id))
    ∷ (text "issued_at", some (int_value t.issued_at))
    ∷ (text "not_before", some (int_value t.not_before))
    ∷ (text "expires_at", some (int_value t.expires_at))
    ∷ (text "parent_id", some (option_value t.parent_id))
    ∷ (text "policy_proof_hash", some (option_value t.policy_proof_hash))
    ∷ (text "grammar_hash", some (option_value t.grammar_hash))
    ∷ (text "policy_hash", some (option_value t.policy_hash))
    ∷ (text "intent", given intent_value t.intent)
    ∷ (text "acting_for", acting_member t.acting_for)
    ∷ []

-- `Capability.body`, which raises where the constraints cannot be normalised.
unfoldable pub body : Platform → Capability → Result Fields
body p t = do c ← normalise_constraints p t.constraints; ok (members (body_members t c))

-- `_signed_material`
unfoldable pub signed_material : Platform → Capability → Result Bytes
signed_material p t = do b ← body p t; canonical_json p (obj b)

-- `"cap:" + _sha256_hex(material)[:24]`
unfoldable pub token_id_of : Platform → Bytes → Text
token_id_of p material = text "cap:" ++ take 24 (p.sha256_hex material)
