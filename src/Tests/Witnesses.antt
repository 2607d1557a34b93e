-- ===== src/Tests/Witnesses.antt =====
-- Each theorem at tokens, calls and gates that are written out, where its hypotheses hold.
use mathlib.Core.Path.{subst}
use raucle.Prelude.{
  ◌≡◌, refl, ◌⊎◌, ◌↔◌, ◌≢◌, Bool, true, false, Option, none, some, List, [], All, arith, ℕ, ◌<◌,
  ◌≤◌, ◌++◌, length,
}
use raucle.Prelude.Int.{pos}
use raucle.Text.{Text, text, text_eq, text_eq_refl, starts_with}
use raucle.Dict.{get}
use raucle.Json.{Fields}
use raucle.Constraints.{check_constraints, HasPlainPrefixes}
use raucle.Constraints.Meaning.{Meets, check-Meets}
use raucle.Constraints.Narrowing.{normalise-same_calls, merge-narrows-parent, merge-narrows-extra}
use raucle.Token.{Capability, body, in_scope}
use raucle.Token.Grammar.{dots_separate, agent_id-form}
use raucle.Issuer.{ProofResult}
use raucle.Token.Scope.{in_scope_iff}
use raucle.Delegation.Link.{link-admits}
use raucle.Issuance.Attenuated.{Attenuates, attenuate-Attenuates, attenuate-admits}
use raucle.Issuance.Minted.{Wellformed, mint-Wellformed}
use raucle.Result.{ok}
use raucle.Wire.{to_dict, from_dict}
use raucle.Wire.Back.{object_of, as_written}
use raucle.Constraints.{Constraints, normalise_constraints, registered_part}
use raucle.Prelude.Sort.{sort}
use raucle.Issuance.Readable.{mint-from_dict}
use raucle.Issuance.Bound.{Carries, mint-Carries}
use raucle.Issuance.Accepted.{Sound, Admits, mint-accepted}
use raucle.Gate.{
  GateDecision, allow, misuse, wrong_tool, verify_hybrid, policy_bound, cited,
  check_attributable_binding, check_proof_enforcement, check,
}
use raucle.Authority.Grant.{Authentic, Within, check-allow_sound}
use raucle.Authority.Inherited.{HasPlainTokens, Covers, check-allow_inherited}
use raucle.Authority.Lineage.{Lineage, token_ids, check-allow-Lineage}
use raucle.Authority.Proven.{Cites, check-allow_proven, check-allow_hybrid}
use raucle.Authority.Revoked.{revoke-denies}
use raucle.Authority.Returns.{Descends, check-returns}
use raucle.Authority.Attribution.{check-blame-Authentic, check-misuse_blamed}
use raucle.Tests.Toy.{
  toy, bank, ten_in_srv, five, five_raw, five_read, five_in_srv, root_token, child_token,
  proven_token, pinned_gate, gate, strict_gate, args, read_call, write_call, restriction, request,
  no_root_no_admin, no_admin_no_root, strict_bank, proven_request, bound_token,
}
use raucle.Tests.Escapes.{dotted-run}
use raucle.Tests.Runs.{
  granted_child, child-granted, proven-granted, write-refused, child-authentic, write-misuse,
  root-inside, extra-run, child-no_violation, merge-run, normal-run, args-admitted, attenuate-run,
  mint-run, strict_mint-run,
}

check-allow_sound_example :
    Authentic toy gate child_token (pos 120) × Within toy child_token read_call
check-allow_sound_example =
    check-allow_sound toy gate child_token 2 read_call (pos 120) granted_child child-granted refl

ten_in_srv-HasPlainPrefixes : HasPlainPrefixes ten_in_srv
unfolding starts_with
ten_in_srv-HasPlainPrefixes = (refl, tt)

found-plain :
    (b : Bool) (a : Capability)
    → elim b as (λ _. Option Capability) [ true ↦ some root_token | false ↦ none ] ≡ some a
    → HasPlainPrefixes a.constraints
found-plain true a h =
    let e : root_token ≡ a = cc in
    subst (λ x. HasPlainPrefixes x.constraints) e ten_in_srv-HasPlainPrefixes
found-plain false a h = cc

gate-HasPlainTokens : HasPlainTokens gate
gate-HasPlainTokens i a h = found-plain (text_eq i root_token.token_id) a h

check-allow_inherited_example :
    (elders : List Capability) × Lineage toy gate child_token elders
    × All (λ a. Covers toy a child_token.agent_id read_call.tool (pos 120) read_call.args) elders
check-allow_inherited_example =
    check-allow_inherited 2 toy gate child_token read_call (pos 120) granted_child
      gate-HasPlainTokens child-granted refl

check-allow-Lineage_example :
    (elders : List Capability) × Lineage toy gate child_token elders
    × (granted_child.chain ≡ token_ids elders)
check-allow-Lineage_example =
    check-allow-Lineage 2 toy gate child_token read_call (pos 120) granted_child child-granted refl

revoke-denies_example :
    (elders : List Capability) × Lineage toy gate child_token elders
    × (child_token.token_id ≢ text "cap:other")
    × All (λ a. a.token_id ≢ text "cap:other") elders
revoke-denies_example =
    revoke-denies 2 toy pinned_gate (text "cap:other") child_token read_call (pos 120) granted_child
      child-granted refl

link-admits_example : check_constraints toy ten_in_srv args ≡ none
link-admits_example =
    link-admits toy five_in_srv ten_in_srv args ten_in_srv-HasPlainPrefixes child-no_violation
      args-admitted

attenuate-Attenuates_example : Attenuates toy root_token five_raw child_token
attenuate-Attenuates_example =
    attenuate-Attenuates toy bank (pos 110) root_token restriction child_token attenuate-run

attenuate-admits_example :
    (check_constraints toy ten_in_srv args ≡ none)
    × (check_constraints toy (registered_part five_read) args ≡ none)
attenuate-admits_example =
    attenuate-admits toy bank (pos 110) root_token restriction child_token five_read args
      ten_in_srv-HasPlainPrefixes extra-run tt attenuate-run args-admitted

merge-narrows-parent_example : check_constraints toy ten_in_srv args ≡ none
merge-narrows-parent_example =
    merge-narrows-parent toy ten_in_srv five five_in_srv args ten_in_srv-HasPlainPrefixes merge-run
      args-admitted

merge-narrows-extra_example : check_constraints toy (registered_part five) args ≡ none
merge-narrows-extra_example =
    merge-narrows-extra toy ten_in_srv five five_in_srv args tt merge-run args-admitted

toy-Sound : Sound toy bank (text "PEM")
unfolding toy
toy-Sound = record { verifies = λ m. text_eq_refl (bank.sign m); decodes = λ b. refl }

gate-Admits : Admits gate bank (text "PEM") root_token
unfolding get text_eq
gate-Admits = record { pinned = refl; in_force = refl; no_proof = refl }

mint-accepted_example :
    check 0 toy gate root_token (record read_call { agent_id = none }) (pos 150)
    ≡ some (allow root_token [])
mint-accepted_example =
    mint-accepted 0 toy bank (text "PEM") (pos 100) request root_token gate
      (record read_call { agent_id = none }) (pos 150) toy-Sound gate-Admits refl mint-run
      (omega arith) (omega arith) root-inside

mint-Wellformed_example : Wellformed toy (pos 100) request root_token
mint-Wellformed_example = mint-Wellformed toy bank (pos 100) request root_token mint-run

proven_token-hybrid : proven_token.pq_key_id ≡ some (text "pq-1")
unfolding proven_token
proven_token-hybrid = refl

check-allow_proven_example : Cites strict_gate proven_token × (policy_bound toy proven_token ≡ true)
check-allow_proven_example =
    check-allow_proven 0 toy strict_gate proven_token (record read_call { agent_id = none })
      (pos 120) (allow proven_token []) refl proven-granted refl

check-allow_hybrid_example :
    (pem : Text) × (get (text "pq-1") strict_gate.pq_public_keys ≡ some (some pem))
    × (verify_hybrid toy proven_token pem ≡ true)
check-allow_hybrid_example =
    check-allow_hybrid 0 toy strict_gate proven_token (record read_call { agent_id = none })
      (pos 120) (allow proven_token []) (text "pq-1") proven_token-hybrid proven-granted refl

check-blame-Authentic_example :
    Authentic toy gate child_token (pos 120)
    × ((check_attributable_binding toy child_token write_call
          ≡ some (misuse child_token wrong_tool))
        ⊎ ((check_attributable_binding toy child_token write_call ≡ none)
            × (check_proof_enforcement toy gate child_token
                ≡ some (misuse child_token wrong_tool))))
check-blame-Authentic_example =
    check-blame-Authentic 2 toy gate child_token write_call (pos 120)
      (misuse child_token wrong_tool) write-refused refl

check-misuse_blamed_example :
    (check 2 toy gate child_token write_call (pos 120) ≡ some (misuse child_token wrong_tool))
    × ((misuse child_token wrong_tool).allowed ≡ false)
    × ((misuse child_token wrong_tool).attributable ≡ true)
check-misuse_blamed_example =
    check-misuse_blamed 2 toy gate child_token write_call (pos 120) (misuse child_token wrong_tool)
      child-authentic write-misuse

-- Roots are at rank 0, and tokens with a parent at rank 1.
abbrev depth_of : Option Text → ℕ
depth_of none = 0
depth_of (some i) = 1

abbrev depth : Capability → ℕ
depth t = depth_of (cited t.parent_id)

found-lower :
    (b : Bool) (child parent : Capability) (i : Text)
    → cited child.parent_id ≡ some i
    → elim b as (λ _. Option Capability) [ true ↦ some root_token | false ↦ none ] ≡ some parent
    → depth parent < depth child
found-lower true child parent i e h =
    let same : root_token ≡ parent = cc in
    subst (λ x. depth x < depth child) same (rw e (omega arith))
found-lower false child parent i e h = cc

gate-Descends : Descends gate depth
gate-Descends child parent i e h = found-lower (text_eq i root_token.token_id) child parent i e h

check-returns_example :
    (d : GateDecision) × (check 2 toy gate child_token read_call (pos 120) ≡ some d)
check-returns_example =
    check-returns 2 toy gate depth child_token read_call (pos 120) gate-Descends (omega arith)

normalise-same_calls_example :
    (check_constraints toy no_admin_no_root args ≡ none)
    ↔ (check_constraints toy no_root_no_admin args ≡ none)
normalise-same_calls_example =
    normalise-same_calls toy no_root_no_admin no_admin_no_root args normal-run

in_scope_iff_example : (in_scope (text "agent:a") (text "agent:ab") ≡ true) ↔ (
    (text "agent:ab" ≡ text "agent:a")
    ⊎ ((rest : Text) × (text "agent:ab" ≡ text "agent:a." ++ rest)))
in_scope_iff_example = in_scope_iff (text "agent:a") (text "agent:ab")

check-Meets_example : (check_constraints toy five_in_srv args ≡ none) ↔ Meets toy five_in_srv args
check-Meets_example = check-Meets toy five_in_srv args

mint-Carries_example :
    (r : ProofResult) × (proven_request.proof_result ≡ some r) × Carries r bound_token
mint-Carries_example =
    mint-Carries toy strict_bank (pos 100) proven_request bound_token refl strict_mint-run

agent_id-form_example :
    (r : Text) × (text "agent:a.b-1" ≡ text "agent:" ++ r)
    × (length r ≤ 129)
    × (dots_separate r ≡ true)
agent_id-form_example = agent_id-form (text "agent:a.b-1") dotted-run

abbrev root_object : Fields
root_object = object_of root_token root_token.constraints

root-to_dict : to_dict toy root_token ≡ ok root_object
unfolding toy to_dict body normalise_constraints sort get
root-to_dict = refl

mint-from_dict_example :
    (n : Constraints) × (normalise_constraints toy root_token.constraints ≡ ok n)
    × (from_dict root_object ≡ ok (as_written root_token n))
mint-from_dict_example =
    mint-from_dict toy bank (pos 100) request root_token root_object refl refl tt mint-run
      root-to_dict
