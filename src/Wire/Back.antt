-- ===== src/Wire/Back.antt =====
-- What `to_dict` writes is what `from_dict` reads, member by member.
use raucle.Prelude.{
  ◌≡◌, refl, sym, ap, ◌∙◌, Bool, true, not, Option, none, some, [], ◌∷◌, ◌<|>◌, if◌then◌else◌,
}
use raucle.Text.{Text, text, text_eq, is_empty}
use raucle.Json.{Fields, get_field}
use raucle.Json.Objects.{str_value, text_of, members, append_fields}
use raucle.Platform.{Platform}
use raucle.Result.{ok, >>=-eq-ok, ok-injective}
use raucle.Constraints.{Constraints, normalise_constraints}
use raucle.Token.{
  Capability, constraints_value, body, body_members, acting_member, option_value, given,
  is_agent_id, is_tool, is_principal,
}
use raucle.Issuer.{validate_intent}
use raucle.Wire.{
  pq_member, seal_members, to_dict, dict_token_id, dict_signature, read_named, read_text,
  read_optional, read_constraint_object, read_acting_for, read_intent, read_parent_id, read_time,
  from_dict,
}
use raucle.Wire.Kinds.{constraints-read}
use raucle.Wire.Intents.{IsRegistered, intent-read}
use raucle.Wire.Lookup.{lookup, lookup-both}

-- The object of a token whose constraints have the normal form `n`.
abbrev pub object_of : Capability → Constraints → Fields
object_of c n = append_fields (members (body_members c n)) (members (seal_members c))

pub to_dict-object :
    (p : Platform) (c : Capability) (t : Fields)
    → to_dict p c ≡ ok t
    → (n : Constraints) × (normalise_constraints p c.constraints ≡ ok n) × (object_of c n ≡ t)
unfolding to_dict body
to_dict-object p c t h =
    let (b, e, k) = >>=-eq-ok (body p c) _ h in
    let (n, normal, made) = >>=-eq-ok (normalise_constraints p c.constraints) _ e in
    (
      n,
      normal,
      ap (λ x. append_fields x (members (seal_members c))) (ok-injective made) ∙ ok-injective k,
    )

-- The member under a key, found by a run over the keys.
pub object-get :
    (k : Text) (c : Capability) (n : Constraints)
    → get_field k (object_of c n) ≡ (lookup k (body_members c n) <|> lookup k (seal_members c))
object-get k c n = lookup-both k (body_members c n) (seal_members c)

pub to_dict-token_id :
    (p : Platform) (c : Capability) (t : Fields) → to_dict p c ≡ ok t → dict_token_id t ≡ c.token_id
unfolding text_eq
to_dict-token_id p c t h =
    let (n, _, made) = to_dict-object p c t h in
    ap dict_token_id (sym made) ∙ ap text_of (object-get (text "token_id") c n)

pub to_dict-signature :
    (p : Platform) (c : Capability) (t : Fields)
    → to_dict p c ≡ ok t
    → dict_signature t ≡ c.signature
unfolding text_eq
to_dict-signature p c t h =
    let (n, _, made) = to_dict-object p c t h in
    ap dict_signature (sym made) ∙ ap text_of (object-get (text "signature") c n)

-- What `to_dict` writes of the token: its constraints are normal, and the second signature stands where
-- there is a key for it.
abbrev pub as_written : Capability → Constraints → Capability
as_written c n = record c { constraints = n; pq_signature = pq_member c.pq_key_id c.pq_signature }

abbrev pub is_named : Text → Bool
is_named s = not (is_empty s)

abbrev pub is_link : Option Text → Bool
is_link none = true
is_link (some i) = is_named i

-- What `from_dict` tests.
pub record Readable (t : Capability) : Type 0 where
  pub id : is_named t.token_id ≡ true
  pub agent_named : is_named t.agent_id ≡ true
  pub tool_named : is_named t.tool ≡ true
  pub issuer : is_named t.issuer ≡ true
  pub key : is_named t.key_id ≡ true
  pub agent : is_agent_id t.agent_id ≡ true
  pub tool_form : is_tool t.tool ≡ true
  pub user : (if is_empty t.acting_for then true else is_principal t.acting_for) ≡ true
  pub intended : validate_intent t.intent ≡ ok tt
  pub registered : IsRegistered t.intent
  pub linked : is_link t.parent_id ≡ true

-- The members of the object are those of the token.
record Holds (d : Fields) (t : Capability) : Type 0 where
  token_id : read_named (get_field (text "token_id") d) ≡ ok t.token_id
  agent_id : read_named (get_field (text "agent_id") d) ≡ ok t.agent_id
  tool : read_named (get_field (text "tool") d) ≡ ok t.tool
  issuer : read_named (get_field (text "issuer") d) ≡ ok t.issuer
  key_id : read_named (get_field (text "key_id") d) ≡ ok t.key_id
  agent_form : is_agent_id t.agent_id ≡ true
  tool_form : is_tool t.tool ≡ true
  constraints : read_constraint_object (get_field (text "constraints") d) ≡ ok t.constraints
  acting_for : read_acting_for (get_field (text "acting_for") d) ≡ ok t.acting_for
  intent : read_intent (get_field (text "intent") d) ≡ ok t.intent
  parent_id : read_parent_id (get_field (text "parent_id") d) ≡ ok t.parent_id
  signature : read_text (get_field (text "signature") d) ≡ ok t.signature
  issued_at : read_time (get_field (text "issued_at") d) ≡ ok t.issued_at
  not_before : read_time (get_field (text "not_before") d) ≡ ok t.not_before
  expires_at : read_time (get_field (text "expires_at") d) ≡ ok t.expires_at
  proof : read_optional (get_field (text "policy_proof_hash") d) ≡ ok t.policy_proof_hash
  grammar : read_optional (get_field (text "grammar_hash") d) ≡ ok t.grammar_hash
  policy : read_optional (get_field (text "policy_hash") d) ≡ ok t.policy_hash
  pq_key_id : read_optional (get_field (text "pq_key_id") d) ≡ ok t.pq_key_id
  pq_signature : read_optional (get_field (text "pq_signature") d) ≡ ok t.pq_signature

Holds-from_dict : (d : Fields) (t : Capability) → Holds d t → from_dict d ≡ ok t
unfolding from_dict
Holds-from_dict d t h =
    rw
      (
        h.token_id, h.agent_id, h.tool, h.issuer, h.key_id, h.agent_form, h.tool_form,
        h.constraints, h.acting_for, h.intent, h.parent_id, h.signature, h.issued_at, h.not_before,
        h.expires_at, h.proof, h.grammar, h.policy, h.pq_key_id, h.pq_signature,
      )
      refl

named-read : (s : Text) → is_named s ≡ true → read_named (some (str_value s)) ≡ ok s
unfolding read_named
named-read s h = rw h refl

user-read :
    (s : Text)
    → (if is_empty s then true else is_principal s) ≡ true
    → read_acting_for ((acting_member s <|> none) <|> none) ≡ ok s
unfolding read_acting_for
user-read [] h = refl
user-read (c ∷ s) h = rw h refl

parent-read : (o : Option Text) → is_link o ≡ true → read_parent_id (some (option_value o)) ≡ ok o
unfolding read_parent_id
parent-read none h = refl
parent-read (some s) h = rw h refl

hash-read : (o : Option Text) → read_optional (some (option_value o)) ≡ ok o
unfolding read_optional
hash-read none = refl
hash-read (some s) = refl

second-read : (o : Option Text) → read_optional (given str_value o <|> none) ≡ ok o
unfolding read_optional
second-read none = refl
second-read (some s) = refl

kinds-read :
    (n : Constraints)
    → n.other_kinds ≡ []
    → read_constraint_object (some (constraints_value n)) ≡ ok n
unfolding read_constraint_object constraints_value
kinds-read n e = constraints-read n e

object-Holds :
    (c : Capability) (n : Constraints)
    → n.other_kinds ≡ []
    → Readable c
    → Holds (object_of c n) (as_written c n)
unfolding text_eq
object-Holds c n e r = record {
  token_id = ap read_named (object-get (text "token_id") c n) ∙ named-read c.token_id r.id;
  agent_id = ap read_named (object-get (text "agent_id") c n) ∙ named-read c.agent_id r.agent_named;
  tool = ap read_named (object-get (text "tool") c n) ∙ named-read c.tool r.tool_named;
  issuer = ap read_named (object-get (text "issuer") c n) ∙ named-read c.issuer r.issuer;
  key_id = ap read_named (object-get (text "key_id") c n) ∙ named-read c.key_id r.key;
  agent_form = r.agent;
  tool_form = r.tool_form;
  constraints = ap read_constraint_object (object-get (text "constraints") c n) ∙ kinds-read n e;
  acting_for =
      ap read_acting_for (object-get (text "acting_for") c n) ∙ user-read c.acting_for r.user;
  intent =
      ap read_intent (object-get (text "intent") c n)
      ∙ intent-read c.intent r.intended r.registered;
  parent_id =
      ap read_parent_id (object-get (text "parent_id") c n) ∙ parent-read c.parent_id r.linked;
  signature = ap read_text (object-get (text "signature") c n);
  issued_at = ap read_time (object-get (text "issued_at") c n);
  not_before = ap read_time (object-get (text "not_before") c n);
  expires_at = ap read_time (object-get (text "expires_at") c n);
  proof =
      ap read_optional (object-get (text "policy_proof_hash") c n) ∙ hash-read c.policy_proof_hash;
  grammar = ap read_optional (object-get (text "grammar_hash") c n) ∙ hash-read c.grammar_hash;
  policy = ap read_optional (object-get (text "policy_hash") c n) ∙ hash-read c.policy_hash;
  pq_key_id = ap read_optional (object-get (text "pq_key_id") c n) ∙ second-read c.pq_key_id;
  pq_signature =
      ap read_optional (object-get (text "pq_signature") c n)
      ∙ second-read (pq_member c.pq_key_id c.pq_signature);
}

-- What is written of a readable token is read as it was written.
pub object-from_dict :
    (c : Capability) (n : Constraints)
    → n.other_kinds ≡ []
    → Readable c
    → from_dict (object_of c n) ≡ ok (as_written c n)
object-from_dict c n e r = Holds-from_dict (object_of c n) (as_written c n) (object-Holds c n e r)
