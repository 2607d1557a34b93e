-- ===== src/Tests/ApprovalWitnesses.antt =====
-- The theorems about approvals, at one request that is made, approved and used.
use raucle.Prelude.{true, ◌≡◌, refl, List, [], ◌∷◌, ◌≤◌}
use raucle.Prelude.Int.{pos, ◌+ℤ◌}
use raucle.Text.{Text, text, text_eq, no_surrogates, utf16_key, utf16_le}
use raucle.Json.{end, field, scalar, str}
use raucle.Json.Canon.{canonical_json, reorder_keys, reject_floats}
use raucle.Dict.{get, put}
use raucle.Approvals.{
  ApprovalManager, Ask, Resubmission, new_manager, create_request, decide, consume, args_hash_of,
  get_request, consume_error,
}
use raucle.Approvals.Edges.{Op, use_up}
use raucle.Approvals.Runs.{Paid, is_done, times_spent, consume-Paid, consume_once}
use raucle.Tests.Toy.{toy, dump_value}

abbrev ask : Ask
ask = record {
  tool = text "send";
  agent_id = text "agent:a";
  args = field (text "to") (scalar (str (text "bob"))) end;
  reason = text "amount";
  trace_id = text "tr";
}

abbrev again : Resubmission
again = record { tool = ask.tool; agent_id = ask.agent_id; args = ask.args }

abbrev request_id : Text
request_id = text "apr_sendagent:abob10"

unfoldable asked : ApprovalManager
unfolding toy create_request
asked = (create_request toy (new_manager (pos 300)) (pos 100) (text "10") ask).0

unfoldable granted : ApprovalManager
unfolding asked decide
granted = (decide asked (pos 110) request_id true (text "eve")).0

paid-run : is_done (consume toy granted (pos 120) request_id again).1 ≡ true
unfolding toy dump_value asked granted create_request decide consume args_hash_of get_request
    consume_error get put canonical_json reorder_keys reject_floats text_eq no_surrogates utf16_key
    utf16_le ◌+ℤ◌
paid-run = refl

consume-Paid_example :
    Paid toy granted request_id again (consume toy granted (pos 120) request_id again).0
consume-Paid_example = consume-Paid toy granted (pos 120) request_id again paid-run

abbrev replay : List Op
replay = use_up (pos 120) request_id again ∷ use_up (pos 121) request_id again ∷ []

consume_once_example : times_spent toy granted request_id replay ≤ 1
consume_once_example = consume_once toy granted request_id replay (refl, (refl, tt))
