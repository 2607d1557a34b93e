-- ===== src/Tests/Runs.antt =====
-- Runs of the model on the tokens and gates of the tests.
use raucle.Prelude.{◌≡◌, refl, none, some, [], ◌∷◌}
use raucle.Prelude.Sort.{sort}
use raucle.Prelude.Int.{pos, ◌+ℤ◌, ◌-ℤ◌}
use raucle.Text.{text_eq, starts_with, no_surrogates, utf16_key, utf16_le}
use raucle.Json.{get_field, flatten_scalars}
use raucle.Json.Canon.{canonical_json}
use raucle.Dict.{get, put, dict_eq}
use raucle.Result.{ok}
use raucle.Constraints.{
  value_le, normalise_constraints, merge_kinds, merge_narrowing, constraints_eq, check_constraints,
  check_forbidden_values, check_allowed_values, check_starts_with, starts_with_entry,
  prefix_matches, canonical_file_uri, check_max_value, max_entry, check_min_value,
  check_required_present, check_forbidden_combinations, read_kinds, iterated_items, read_extra,
  decode_constraints,
}
use raucle.Token.{
  body, signed_material, token_id_of, is_agent_id, is_principal, is_tool, in_scope,
  constraints_value,
}
use raucle.Delegation.{
  each_common, assert_narrowing, narrow_agent_id, narrow_acting_for, narrow_intent, narrow_expiry,
  attenuation_violation, constraints_violation,
}
use raucle.Issuer.{validate_intent, validate_ttl, bind_proof_hashes, seal, mint, attenuate}
use raucle.Gate.{
  GateDecision, allow, misuse, wrong_tool, verify_signature, verify_hybrid, check_signature,
  check_hybrid_signature, check_token_id, check_revocation, check_time_bounds, check_token_identity,
  check_tool_binding, check_agent_id, check_caller_identity, check_call_args, check_intent_scope,
  check_attributable_binding, check_proof_hash_mismatch, check_strict_binding, policy_bound,
  check_proof_binding, check_proof_enforcement, link_refusal, verify_ancestor_chain, check_chain,
  check,
}
use raucle.Tests.Toy.{
  toy, bank, ten_in_srv, five, five_raw, five_read, five_in_srv, root_token, child_token,
  proven_token, gate, strict_gate, args, read_call, write_call, restriction, request,
  no_root_no_admin, no_admin_no_root, strict_bank, proven_request, bound_token, long_signature,
}

abbrev pub granted_child : GateDecision
granted_child = allow child_token (root_token.token_id ∷ [])

pub child-granted : check 2 toy gate child_token read_call (pos 120) ≡ some granted_child
unfolding toy text_eq starts_with no_surrogates utf16_key utf16_le canonical_json get put dict_eq
    normalise_constraints merge_kinds merge_narrowing constraints_eq check_constraints body
    signed_material token_id_of is_agent_id in_scope attenuation_violation constraints_violation
    verify_signature check_signature check_hybrid_signature check_token_id check_revocation
    check_time_bounds check_token_identity check_tool_binding check_agent_id check_caller_identity
    check_call_args check_intent_scope check_attributable_binding check_proof_enforcement
    check_proof_binding check_proof_hash_mismatch check_strict_binding policy_bound
    constraints_value verify_hybrid link_refusal verify_ancestor_chain check_chain check
    check_forbidden_values check_allowed_values check_starts_with starts_with_entry get_field
    prefix_matches canonical_file_uri check_max_value max_entry flatten_scalars check_min_value
    check_required_present check_forbidden_combinations
child-granted = refl

pub proven-granted :
    check 0 toy strict_gate proven_token (record read_call { agent_id = none }) (pos 120)
    ≡ some (allow proven_token [])
unfolding toy text_eq starts_with no_surrogates utf16_key utf16_le canonical_json get put dict_eq
    normalise_constraints merge_kinds merge_narrowing constraints_eq check_constraints body
    signed_material token_id_of is_agent_id in_scope attenuation_violation constraints_violation
    verify_signature check_signature check_hybrid_signature check_token_id check_revocation
    check_time_bounds check_token_identity check_tool_binding check_agent_id check_caller_identity
    check_call_args check_intent_scope check_attributable_binding check_proof_enforcement
    check_proof_binding check_proof_hash_mismatch check_strict_binding policy_bound
    constraints_value verify_hybrid link_refusal verify_ancestor_chain check_chain check
    check_forbidden_values check_allowed_values check_starts_with starts_with_entry get_field
    prefix_matches canonical_file_uri check_max_value max_entry flatten_scalars check_min_value
    check_required_present check_forbidden_combinations proven_token long_signature
proven-granted = refl

pub write-refused :
    check 2 toy gate child_token write_call (pos 120) ≡ some (misuse child_token wrong_tool)
unfolding toy text_eq starts_with no_surrogates utf16_key utf16_le canonical_json get put dict_eq
    normalise_constraints merge_kinds merge_narrowing constraints_eq check_constraints body
    signed_material token_id_of is_agent_id in_scope attenuation_violation constraints_violation
    verify_signature check_signature check_hybrid_signature check_token_id check_revocation
    check_time_bounds check_token_identity check_tool_binding check_agent_id check_caller_identity
    check_call_args check_intent_scope check_attributable_binding check_proof_enforcement
    check_proof_binding check_proof_hash_mismatch check_strict_binding policy_bound
    constraints_value verify_hybrid link_refusal verify_ancestor_chain check_chain check
    check_forbidden_values check_allowed_values check_starts_with starts_with_entry get_field
    prefix_matches canonical_file_uri check_max_value max_entry flatten_scalars check_min_value
    check_required_present check_forbidden_combinations
write-refused = refl

pub child-authentic : check_token_identity toy gate child_token (pos 120) ≡ none
unfolding toy text_eq starts_with no_surrogates utf16_key utf16_le canonical_json get put dict_eq
    normalise_constraints merge_kinds merge_narrowing constraints_eq check_constraints body
    signed_material token_id_of is_agent_id in_scope attenuation_violation constraints_violation
    verify_signature check_signature check_hybrid_signature check_token_id check_revocation
    check_time_bounds check_token_identity check_tool_binding check_agent_id check_caller_identity
    check_call_args check_intent_scope check_attributable_binding check_proof_enforcement
    check_proof_binding check_proof_hash_mismatch check_strict_binding policy_bound
    constraints_value verify_hybrid link_refusal verify_ancestor_chain check_chain check
    check_forbidden_values check_allowed_values check_starts_with starts_with_entry get_field
    prefix_matches canonical_file_uri check_max_value max_entry flatten_scalars check_min_value
    check_required_present check_forbidden_combinations
child-authentic = refl

pub write-misuse :
    check_attributable_binding toy child_token write_call ≡ some (misuse child_token wrong_tool)
unfolding toy text_eq starts_with no_surrogates utf16_key utf16_le canonical_json get put dict_eq
    normalise_constraints merge_kinds merge_narrowing constraints_eq check_constraints body
    signed_material token_id_of is_agent_id in_scope attenuation_violation constraints_violation
    verify_signature check_signature check_hybrid_signature check_token_id check_revocation
    check_time_bounds check_token_identity check_tool_binding check_agent_id check_caller_identity
    check_call_args check_intent_scope check_attributable_binding check_proof_enforcement
    check_proof_binding check_proof_hash_mismatch check_strict_binding policy_bound
    constraints_value verify_hybrid link_refusal verify_ancestor_chain check_chain check
    check_forbidden_values check_allowed_values check_starts_with starts_with_entry get_field
    prefix_matches canonical_file_uri check_max_value max_entry flatten_scalars check_min_value
    check_required_present check_forbidden_combinations
write-misuse = refl

pub root-inside :
    check_attributable_binding toy root_token (record read_call { agent_id = none }) ≡ none
unfolding toy text_eq starts_with no_surrogates utf16_key utf16_le canonical_json get put dict_eq
    normalise_constraints merge_kinds merge_narrowing constraints_eq check_constraints body
    signed_material token_id_of is_agent_id in_scope attenuation_violation constraints_violation
    verify_signature check_signature check_hybrid_signature check_token_id check_revocation
    check_time_bounds check_token_identity check_tool_binding check_agent_id check_caller_identity
    check_call_args check_intent_scope check_attributable_binding check_proof_enforcement
    check_proof_binding check_proof_hash_mismatch check_strict_binding policy_bound
    constraints_value verify_hybrid link_refusal verify_ancestor_chain check_chain check
    check_forbidden_values check_allowed_values check_starts_with starts_with_entry get_field
    prefix_matches canonical_file_uri check_max_value max_entry flatten_scalars check_min_value
    check_required_present check_forbidden_combinations
root-inside = refl

pub child-no_violation : constraints_violation toy five_in_srv ten_in_srv ≡ none
unfolding toy text_eq starts_with no_surrogates utf16_key utf16_le canonical_json get put dict_eq
    normalise_constraints merge_kinds merge_narrowing constraints_eq check_constraints
    check_forbidden_values check_allowed_values check_starts_with starts_with_entry get_field
    prefix_matches canonical_file_uri check_max_value max_entry flatten_scalars check_min_value
    check_required_present check_forbidden_combinations constraints_violation
child-no_violation = refl

pub merge-run : merge_narrowing toy ten_in_srv five ≡ ok five_in_srv
unfolding toy text_eq starts_with no_surrogates utf16_key utf16_le canonical_json get put dict_eq
    normalise_constraints merge_kinds merge_narrowing constraints_eq check_constraints
    check_forbidden_values check_allowed_values check_starts_with starts_with_entry get_field
    prefix_matches canonical_file_uri check_max_value max_entry flatten_scalars check_min_value
    check_required_present check_forbidden_combinations
merge-run = refl

pub normal-run : normalise_constraints toy no_root_no_admin ≡ ok no_admin_no_root
unfolding toy text_eq starts_with no_surrogates utf16_key utf16_le canonical_json get put dict_eq
    normalise_constraints merge_kinds merge_narrowing constraints_eq check_constraints
    check_forbidden_values check_allowed_values check_starts_with starts_with_entry get_field
    prefix_matches canonical_file_uri check_max_value max_entry flatten_scalars check_min_value
    check_required_present check_forbidden_combinations sort value_le
normal-run = refl

pub args-admitted : check_constraints toy five_in_srv args ≡ none
unfolding toy text_eq starts_with no_surrogates utf16_key utf16_le canonical_json get put dict_eq
    normalise_constraints merge_kinds merge_narrowing constraints_eq check_constraints
    check_forbidden_values check_allowed_values check_starts_with starts_with_entry get_field
    prefix_matches canonical_file_uri check_max_value max_entry flatten_scalars check_min_value
    check_required_present check_forbidden_combinations
args-admitted = refl

pub attenuate-run : attenuate toy bank (pos 110) root_token restriction ≡ ok child_token
unfolding toy text_eq starts_with no_surrogates utf16_key utf16_le canonical_json get put dict_eq
    normalise_constraints merge_kinds merge_narrowing constraints_eq check_constraints
    check_forbidden_values check_allowed_values check_starts_with starts_with_entry get_field
    prefix_matches canonical_file_uri check_max_value max_entry flatten_scalars check_min_value
    check_required_present check_forbidden_combinations body signed_material token_id_of
    constraints_value is_agent_id is_principal is_tool in_scope each_common assert_narrowing
    narrow_agent_id narrow_acting_for narrow_intent narrow_expiry validate_intent seal attenuate
    read_kinds read_extra iterated_items ◌+ℤ◌ ◌-ℤ◌
attenuate-run = refl

pub extra-run : read_extra five_raw ≡ ok five_read
unfolding get_field text_eq read_kinds read_extra iterated_items
extra-run = refl

pub mint-run : mint toy bank (pos 100) request ≡ ok root_token
unfolding toy text_eq starts_with no_surrogates utf16_key utf16_le canonical_json get put dict_eq
    normalise_constraints merge_kinds merge_narrowing constraints_eq check_constraints
    check_forbidden_values check_allowed_values check_starts_with starts_with_entry get_field
    prefix_matches canonical_file_uri check_max_value max_entry flatten_scalars check_min_value
    check_required_present check_forbidden_combinations body signed_material token_id_of
    constraints_value is_agent_id is_principal is_tool in_scope read_kinds decode_constraints
    validate_intent validate_ttl bind_proof_hashes seal mint ◌+ℤ◌ ◌-ℤ◌
mint-run = refl

pub strict_mint-run : mint toy strict_bank (pos 100) proven_request ≡ ok bound_token
unfolding toy text_eq starts_with no_surrogates utf16_key utf16_le canonical_json get put dict_eq
    normalise_constraints merge_kinds merge_narrowing constraints_eq check_constraints
    check_forbidden_values check_allowed_values check_starts_with starts_with_entry get_field
    prefix_matches canonical_file_uri check_max_value max_entry flatten_scalars check_min_value
    check_required_present check_forbidden_combinations body signed_material token_id_of
    constraints_value is_agent_id is_principal is_tool in_scope read_kinds decode_constraints
    validate_intent validate_ttl bind_proof_hashes seal mint ◌+ℤ◌ ◌-ℤ◌
strict_mint-run = refl
