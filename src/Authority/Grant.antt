-- ===== src/Authority/Grant.antt =====
-- What the gate has checked when it allows a call.
use raucle.Prelude.{◌≡◌, Bool, true, false, ◌||◌, Option, none, some, arith, ℕ, <|>-eq-none}
use raucle.Prelude.Int.{ℤ, ◌≤ℤ◌, ◌<ℤ◌}
use raucle.Text.{Text, text_eq, text_eq_sound, is_empty, mem_text}
use raucle.Platform.{Platform, Bytes}
use raucle.Dict.{get}
use raucle.Result.{ok}
use raucle.Constraints.{check_constraints}
use raucle.Token.{Capability, signed_material, token_id_of, in_scope}
use raucle.Gate.{
  GateDecision, CapabilityGate, Call, check, check_token_identity, check_signature,
  check_hybrid_signature, check_token_id, check_revocation, check_time_bounds,
  check_attributable_binding, check_tool_binding, check_caller_identity, check_agent_id,
  check_call_args, check_intent_scope, verify_signature, is_revoked, declares,
}
use raucle.Authority.Walks.{check-allowed}

-- A caller that names itself is in the scope of the token.
abbrev pub caller_in_scope : Capability → Option Text → Bool
caller_in_scope t none = true
caller_in_scope t (some a) = in_scope t.agent_id a

-- The token is bound to nobody, or the call declares the user that it is bound to.
abbrev pub user_matches : Capability → Option Text → Bool
user_matches t u = is_empty t.acting_for || declares t.acting_for u

-- The token authenticates at the time: its key is pinned and has signed its body, its id is the hash of
-- the body, neither it nor its parent is revoked, and the time is in its window.
pub record Authentic (p : Platform) (g : CapabilityGate) (t : Capability) (ts : ℤ) : Type 0 where
  pub pem : Text
  pub pinned : get t.key_id g.issuers ≡ some pem
  pub signed : verify_signature p t pem ≡ true
  pub material : Bytes
  pub hashed : signed_material p t ≡ ok material
  pub id : token_id_of p material ≡ t.token_id
  pub in_force : mem_text t.token_id g.revoked ≡ false
  pub parent_in_force : is_revoked g t.parent_id ≡ false
  pub started : t.not_before ≤ℤ ts
  pub alive : ts <ℤ t.expires_at

-- The call stays inside the token: its tool, its caller, its user and its arguments.
pub record Within (p : Platform) (t : Capability) (call : Call) : Type 0 where
  pub tool : t.tool ≡ call.tool
  pub caller : caller_in_scope t call.agent_id ≡ true
  pub user : user_matches t call.acting_for ≡ true
  pub args : check_constraints p t.constraints call.args ≡ none
  pub intent : check_intent_scope p t call.args ≡ none

module _ (p : Platform) (g : CapabilityGate) (t : Capability) where
  signature-passed :
      check_signature p g t ≡ none
      → (pem : Text) × (get t.key_id g.issuers ≡ some pem) × (verify_signature p t pem ≡ true)
  unfolding check_signature
  signature-passed h = ground arith

  token_id-passed :
      check_token_id p t ≡ none
      → (m : Bytes) × (signed_material p t ≡ ok m) × (text_eq (token_id_of p m) t.token_id ≡ true)
  unfolding check_token_id
  token_id-passed h = ground arith

  revocation-passed :
      check_revocation g t ≡ none
      → (mem_text t.token_id g.revoked ≡ false) × (is_revoked g t.parent_id ≡ false)
  unfolding check_revocation
  revocation-passed h = ground arith

  time-passed :
      (ts : ℤ) → check_time_bounds t ts ≡ none → (t.not_before ≤ℤ ts) × (ts <ℤ t.expires_at)
  unfolding check_time_bounds
  time-passed ts h = ground arith

  pub identity-Authentic : (ts : ℤ) → check_token_identity p g t ts ≡ none → Authentic p g t ts
  unfolding check_token_identity
  identity-Authentic ts h =
      let (h₀, k₀) = <|>-eq-none (check_signature p g t) _ h in
      let (h₁, k₁) = <|>-eq-none (check_hybrid_signature p g t) _ k₀ in
      let (h₂, k₂) = <|>-eq-none (check_token_id p t) _ k₁ in
      let (h₃, h₄) = <|>-eq-none (check_revocation g t) _ k₂ in
      let (pem, pinned, signed) = signature-passed h₀ in
      let (m, made, matches) = token_id-passed h₂ in
      let (own, parent) = revocation-passed h₃ in
      let (started, alive) = time-passed ts h₄ in
      record {
        pem = pem;
        pinned = pinned;
        signed = signed;
        material = m;
        hashed = made;
        id = text_eq_sound (token_id_of p m) t.token_id matches;
        in_force = own;
        parent_in_force = parent;
        started = started;
        alive = alive;
      }

  tool-passed : (tool : Text) → check_tool_binding t tool ≡ none → text_eq t.tool tool ≡ true
  unfolding check_tool_binding
  tool-passed tool h = ground arith

  caller-passed :
      (a u : Option Text)
      → check_caller_identity t a u ≡ none
      → (caller_in_scope t a ≡ true) × (user_matches t u ≡ true)
  unfolding check_caller_identity check_agent_id
  caller-passed a u h = ground arith

  args-passed :
      (call : Call)
      → check_call_args p t call.args ≡ none
      → check_constraints p t.constraints call.args ≡ none
  unfolding check_call_args
  args-passed call h = ground arith

  pub binding-Within : (call : Call) → check_attributable_binding p t call ≡ none → Within p t call
  unfolding check_attributable_binding
  binding-Within call h =
      let (h₀, k₀) = <|>-eq-none (check_tool_binding t call.tool) _ h in
      let (h₁, k₁) = <|>-eq-none (check_caller_identity t call.agent_id call.acting_for) _ k₀ in
      let (h₂, h₃) = <|>-eq-none (check_call_args p t call.args) _ k₁ in
      let (caller, user) = caller-passed call.agent_id call.acting_for h₁ in
      record {
        tool = text_eq_sound t.tool call.tool (tool-passed call.tool h₀);
        caller = caller;
        user = user;
        args = args-passed call h₂;
        intent = h₃;
      }

  -- A gate that allows a call has authenticated the token, and the call stays inside the token: its
  -- tool, the caller's name, the declared user, the constraints on the arguments and the intent.
  pub check-allow_sound :
      (fuel : ℕ) (call : Call) (ts : ℤ) (d : GateDecision)
      → check fuel p g t call ts ≡ some d
      → d.allowed ≡ true
      → Authentic p g t ts × Within p t call
  check-allow_sound fuel call ts d h a =
      let (identity, binding, _, _) = check-allowed p g t fuel call ts d h a in
      (identity-Authentic ts identity, binding-Within call binding)
