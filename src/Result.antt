-- ===== src/Result.antt =====
-- Functions that may raise: the errors of raucle/capability.py and raucle/_canon.py, by what they
-- complain of, and the chaining of such calls.
use raucle.Prelude.{◌≡◌, refl, sym, ◌∙◌, Bool, true, false}

pub data Error : Type 0 where
  -- the shape of a constraint object
  unknown_kind bad_shape bad_member bad_bound bad_prefix_value empty_field field_collision : Error
  -- canonical JSON
  float_in_token unsafe_integer lone_surrogate : Error
  -- a float that JSON has no text for, digits that are not hexadecimal, and JSON that the readers refuse
  non_finite bad_hex duplicate_key not_an_object : Error
  -- attenuation
  broader_prefix disjoint_prefix widened : Error
  wrong_agent_scope retargeted_user widened_tools outlives_parent unsigned_parent expired_parent :
      Error
  -- minting and parsing
  bad_agent_id bad_tool bad_principal bad_intent bad_ttl bad_token_field no_pq_key : Error
  policy_unproven hash_conflict : Error
  -- the gate's and the ledger's own
  no_issuer bad_proof_mode unsigned_record no_key bad_record_signature hold_uncovered : Error
  no_ledger bad_ledger_line : Error
  -- the head of an audit chain
  malformed_line tampered_event bad_event_index no_events : Error

pub data Result {ℓ} (V : Type ℓ) : Type ℓ where
  err : Error → Result V
  ok : V → Result V

-- `if not b: raise ValueError(…)`
abbrev pub require : Bool → Error → Result (Unit {0})
require false why = err why
require true why = ok tt

infixl 5 ◌>>=◌
abbrev pub ◌>>=◌ {κ ℓ} : {V : Type κ} {W : Type ℓ} → Result V → (V → Result W) → Result W
err why >>= next = err why
ok v >>= next = next v

infixl 5 ◌>>◌
abbrev pub ◌>>◌ {ℓ} : {W : Type ℓ} → Result (Unit {0}) → Result W → Result W
first >> second = first >>= λ _. second

-- A chain that returns has passed its first call.
pub >>=-eq-ok {κ ℓ} :
    {V : Type κ} {W : Type ℓ} (first : Result V) (next : V → Result W) {w : W}
    → (first >>= next) ≡ ok w
    → (v : V) × (first ≡ ok v) × (next v ≡ ok w)
>>=-eq-ok (err why) next h = cc
>>=-eq-ok (ok v) next h = (v, refl, h)

pub require-eq-ok {ℓ} :
    {B : Type ℓ} (b : Bool) (e : Error) (k : Result B) {r : B}
    → (require b e >> k) ≡ ok r
    → (b ≡ true) × (k ≡ ok r)
require-eq-ok true e k h = (refl, h)
require-eq-ok false e k h = cc

pub ok-injective {ℓ} : {A : Type ℓ} {a b : A} → ok a ≡ ok b → a ≡ b
ok-injective h = cc

-- A call returns the given value or raises.
abbrev pub is_ok {ℓ} : {A : Type ℓ} → Result A → Bool
is_ok (ok a) = true
is_ok (err e) = false

abbrev pub Outcome {ℓ} : {A : Type ℓ} → Result A → A → Type ℓ
Outcome r a = (is_ok r ≡ true) → r ≡ ok a

pub Outcome-eq {ℓ} : {A : Type ℓ} (r : Result A) {a b : A} → Outcome r a → r ≡ ok b → b ≡ a
Outcome-eq (ok x) f h = ok-injective (sym h ∙ f refl)
Outcome-eq (err e) f h = cc
