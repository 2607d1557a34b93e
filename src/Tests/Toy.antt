-- ===== src/Tests/Toy.antt =====
-- A platform that can be run: strings stand for themselves, a digest is its text, and a signature is
-- the head of what it signs.
use raucle.Prelude.{ℕ, zero, suc, true, false, Option, none, some, [], ◌∷◌, ◌++◌, take}
use raucle.Prelude.Int.{pos}
use raucle.Text.{Text, text, text_eq}
use raucle.Json.{Scalar, int, str, Value, scalar, arr, obj, Items, nil, cons, Fields, end, field}
use raucle.Platform.{Platform}
use raucle.Constraints.{Constraints, no_constraints}
use raucle.Token.{Intent, Capability}
use raucle.Issuer.{ProofResult, CapabilityIssuer, MintRequest, Restriction}
use raucle.Gate.{CapabilityGate, off, strict, Call, revoke}

abbrev dump_scalar : Scalar → Text
dump_scalar (str s) = s
dump_scalar _ = []

unfoldable mutual
  pub dump_value : Value → Text
  dump_value (scalar s) = dump_scalar s
  dump_value (arr xs) = dump_items xs
  dump_value (obj fs) = dump_fields fs

  dump_items : Items → Text
  dump_items nil = []
  dump_items (cons v vs) = dump_value v ++ dump_items vs

  dump_fields : Fields → Text
  dump_fields end = []
  dump_fields (field k v fs) = dump_value v ++ dump_fields fs

-- The text from the given place on.
behind : ℕ → Text → Text
behind zero s = s
behind (suc n) [] = []
behind (suc n) (c ∷ s) = behind n s

unfoldable pub toy : Platform
unfolding behind dump_value dump_items dump_fields text_eq
toy = record {
  nfc = λ s. s;
  url_path = λ s. some (behind 7 s);
  dumps = dump_value;
  dumps_sorted = dump_value;
  sha256_hex = λ m. m;
  encode = λ s. s;
  sha256 = λ m. m;
  to_hex = λ m. m;
  from_hex = λ s. some s;
  b64_std = λ b. b;
  b64d_std = λ s. some s;
  b64d_strict = λ s. some s;
  b64 = λ b. b;
  b64d = λ s. some s;
  verify = λ pem sig m. text_eq sig (take 4 m);
  pq_verify = λ pem sig m. text_eq (take 4 sig) (take 4 m);
}

abbrev pub bank : CapabilityIssuer
bank = record {
  issuer = text "bank";
  key_id = text "key-1";
  sign = take 4;
  require_proof = false;
  pq_key_id = text "pq-1";
  pq_sign = none;
}

-- At most ten, in one directory.
abbrev pub ten_in_srv : Constraints
ten_in_srv = record no_constraints {
  starts_with = some ((text "path", text "/srv/") ∷ []);
  max_value = some ((text "amount", pos 10) ∷ []);
}

abbrev pub five : Constraints
five = record no_constraints { max_value = some ((text "amount", pos 5) ∷ []) }

abbrev pub five_in_srv : Constraints
five_in_srv = record ten_in_srv { max_value = some ((text "amount", pos 5) ∷ []) }

abbrev pub root_token : Capability
root_token = record {
  token_id = text "cap:agent:a/srv/bankkey-1rea";
  agent_id = text "agent:a";
  tool = text "read";
  constraints = ten_in_srv;
  issuer = text "bank";
  key_id = text "key-1";
  issued_at = pos 100;
  not_before = pos 100;
  expires_at = pos 200;
  parent_id = none;
  intent = none;
  acting_for = [];
  policy_proof_hash = none;
  grammar_hash = none;
  policy_hash = none;
  signature = text "agen";
  pq_key_id = none;
  pq_signature = none;
}

abbrev pub child_token : Capability
child_token = record root_token {
  token_id = text "cap:agent:a.b/srv/bankkey-1c";
  agent_id = text "agent:a.b";
  constraints = five_in_srv;
  issued_at = pos 110;
  not_before = pos 110;
  expires_at = pos 160;
  parent_id = some (text "cap:agent:a/srv/bankkey-1rea");
}

abbrev pub find_root : Text → Option Capability
find_root i = elim (text_eq i root_token.token_id) [ true ↦ some root_token | false ↦ none ]

abbrev pub pinned_gate : CapabilityGate
pinned_gate = record {
  issuers = (text "key-1", text "PEM") ∷ [];
  resolver = some find_root;
  proof_mode = off;
  trusted_proofs = [];
  revoked = [];
  pq_public_keys = [];
}

-- The gate has revoked a token that is not in play.
abbrev pub gate : CapabilityGate
gate = revoke pinned_gate (text "cap:other")

abbrev pub args : Fields
args =
    field (text "amount") (scalar (int (pos 3)))
      (field (text "path") (scalar (str (text "/srv/x"))) end)

abbrev pub read_call : Call
read_call = record {
  tool = text "read";
  agent_id = some (text "agent:a.b.c");
  args = args;
  acting_for = none;
}

abbrev pub write_call : Call
write_call = record read_call { tool = text "write" }

-- At most five, with a word of advice under a key that is no constraint kind.
abbrev pub five_raw : Fields
five_raw =
    field (text "max_value") (obj (field (text "amount") (scalar (int (pos 5))) end))
      (field (text "max_calls_per_hour") (scalar (int (pos 3))) end)

abbrev pub five_read : Constraints
five_read = record five { other_kinds = (text "max_calls_per_hour", scalar (int (pos 3))) ∷ [] }

-- What `attenuate` is asked for to make the child of the root.
abbrev pub restriction : Restriction
restriction = record {
  extra_constraints = five_raw;
  narrower_ttl_seconds = some (pos 50);
  narrower_agent_id = some (text "agent:a.b");
  intent = none;
  acting_for = [];
}

-- What `mint` is asked for to make the root.
abbrev pub request : MintRequest
request = record {
  agent_id = text "agent:a";
  tool = text "read";
  constraints = field (text "max_value") (obj (field (text "amount") (scalar (int (pos 10))) end)) (
      field (text "starts_with") (obj (field (text "path") (scalar (str (text "/srv/"))) end)) end);
  ttl_seconds = int (pos 100);
  not_before_offset = pos 0;
  policy_proof_hash = none;
  proof_result = none;
  grammar_hash = none;
  policy_hash = none;
  quantum = false;
  intent = none;
  acting_for = [];
}

zeros : ℕ → Text
zeros zero = []
zeros (suc n) = 0 ∷ zeros n

-- A second signature of the length that the scheme has.
unfoldable pub long_signature : Text
unfolding zeros
long_signature = text "agen" ++ zeros 3305

-- A hybrid token that cites a proof of its constraints.
unfoldable pub proven_token : Capability
unfolding long_signature
proven_token = record root_token {
  token_id = text "cap:agent:a/srv/gbankkey-1sh";
  policy_proof_hash = some (text "proof");
  grammar_hash = some (text "g");
  policy_hash = some (text "sha256:/srv/");
  issuer = text "bank";
  pq_key_id = some (text "pq-1");
  pq_signature = some long_signature;
}

abbrev pub strict_gate : CapabilityGate
strict_gate = record gate {
  proof_mode = strict;
  trusted_proofs =
      (
        text "proof",
        record {
          hash = text "proof";
          status = text "PROVEN";
          grammar_hash = text "g";
          policy_hash = text "sha256:/srv/";
        },
      )
      ∷ [];
  pq_public_keys = (text "pq-1", some (text "PQPEM")) ∷ [];
}

-- A parent's prefix, and a child's that spells a way out of it.
abbrev pub in_a_b : Constraints
in_a_b = record no_constraints { starts_with = some ((text "path", text "file:///a/b") ∷ []) }

abbrev pub out_of_a_b : Constraints
out_of_a_b = record no_constraints {
  starts_with = some ((text "path", text "file:///a/b/../c") ∷ []);
}

abbrev pub outside_args : Fields
outside_args = field (text "path") (scalar (str (text "file:///a/c/x"))) end

-- An intent that leaves out the tools of the one that it narrows.
abbrev pub read_only : Intent
read_only = record {
  statement = text "report";
  tools = some (text "read" ∷ []);
  constraints = none;
}

abbrev pub any_tool : Intent
any_tool = record { statement = text "report"; tools = none; constraints = none }

abbrev pub policy_proof : ProofResult
policy_proof = record {
  hash = text "proof";
  status = text "PROVEN";
  grammar_hash = text "g";
  policy_hash = text "sha256:/srv/";
}

abbrev pub strict_bank : CapabilityIssuer
strict_bank = record bank { require_proof = true }

abbrev pub proven_request : MintRequest
proven_request = record request { proof_result = some policy_proof }

abbrev pub bound_token : Capability
bound_token = record root_token {
  token_id = text "cap:agent:a/srv/gbankkey-1sh";
  policy_proof_hash = some (text "proof");
  grammar_hash = some (text "g");
  policy_hash = some (text "sha256:/srv/");
}

-- A list of forbidden values, out of order and in order.
abbrev pub no_root_no_admin : Constraints
no_root_no_admin = record no_constraints {
  forbidden_values = some ((text "user", str (text "root") ∷ str (text "admin") ∷ []) ∷ []);
}

abbrev pub no_admin_no_root : Constraints
no_admin_no_root = record no_constraints {
  forbidden_values = some ((text "user", str (text "admin") ∷ str (text "root") ∷ []) ∷ []);
}
