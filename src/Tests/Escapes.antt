-- ===== src/Tests/Escapes.antt =====
-- Runs of the narrowing rules on a file URI that leaves its parent's, and on an intent without tools.
use raucle.Prelude.{◌≡◌, refl, true, ◌++◌, ◌∷◌, none, some, []}
use raucle.Text.{text, text_eq, starts_with, no_surrogates, utf16_key, utf16_le}
use raucle.Json.{get_field}
use raucle.Dict.{get, put, dict_eq}
use raucle.Result.{ok}
use raucle.Constraints.{
  bad_prefix, normalise_constraints, merge_kinds, merge_narrowing, constraints_eq,
  check_constraints, check_forbidden_values, check_allowed_values, check_starts_with,
  starts_with_entry, prefix_matches, canonical_file_uri, check_max_value, check_min_value,
  check_required_present, check_forbidden_combinations,
}
use raucle.Token.{is_agent_id, id_tail}
use raucle.Delegation.{constraints_violation, narrow_intent}
use raucle.Tests.Toy.{toy, root_token, in_a_b, out_of_a_b, outside_args, read_only, any_tool}

escape-no_violation : constraints_violation toy out_of_a_b in_a_b ≡ none
unfolding toy text_eq starts_with no_surrogates utf16_key utf16_le get put dict_eq
    normalise_constraints merge_kinds merge_narrowing constraints_eq constraints_violation
escape-no_violation = refl

escape-admitted : check_constraints toy out_of_a_b outside_args ≡ none
unfolding toy text_eq starts_with check_constraints check_forbidden_values check_allowed_values
    check_starts_with starts_with_entry get_field prefix_matches canonical_file_uri check_max_value
    check_min_value check_required_present check_forbidden_combinations
escape-admitted = refl

escape-refused : check_constraints toy in_a_b outside_args ≡ some (bad_prefix (text "path"))
unfolding toy text_eq starts_with check_constraints check_forbidden_values check_allowed_values
    check_starts_with starts_with_entry get_field prefix_matches canonical_file_uri check_max_value
    check_min_value check_required_present check_forbidden_combinations
escape-refused = refl

intent-widened :
    narrow_intent toy (record root_token { intent = some read_only }) (some any_tool)
    ≡ ok (some any_tool)
unfolding narrow_intent
intent-widened = refl

pub canonical-run : canonical_file_uri toy (text "file:///a//b/../c") ≡ some (text "file:///a/c")
unfolding toy canonical_file_uri starts_with text_eq
canonical-run = refl

pub dotted-run : is_agent_id (text "agent:a.b-1") ≡ true
unfolding is_agent_id id_tail
dotted-run = refl

-- The pattern accepts a dash at the end, and a newline.
dash-accepted : is_agent_id (text "agent:a-") ≡ true
unfolding is_agent_id id_tail
dash-accepted = refl

newline-accepted : is_agent_id (text "agent:a" ++ 10 ∷ []) ≡ true
unfolding is_agent_id id_tail
newline-accepted = refl
