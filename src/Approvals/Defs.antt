-- ===== src/Approvals/Defs.antt =====
-- `ApprovalRequest` and `ApprovalManager`. A method returns the manager that it leaves behind, since
-- `_get` writes before it raises.
use raucle.Prelude.{
  Bool, true, false, not, ◌&&◌, ◌||◌, Option, none, some, List, [], ◌∷◌, ◌++◌, take, if◌then◌else◌,
}
use raucle.Prelude.Int.{ℤ, ◌+ℤ◌, leb_ℤ, ltb_ℤ}
use raucle.Text.{Text, text, text_eq}
use raucle.Json.{obj, Fields}
use raucle.Json.Canon.{canonical_json}
use raucle.Platform.{Platform}
use raucle.Dict.{Dict, get, put}
use raucle.Result.{Error, Result, ok, err, ◌>>=◌}

-- The four statuses of the source's comment, and the one that `_get` writes.
pub data Status : Type 0 where
  pending approved denied consumed expired : Status

pub record ApprovalRequest : Type 0 where
  pub request_id : Text
  pub tool : Text
  pub agent_id : Text
  pub args_hash : Text
  pub reason : Text
  pub trace_id : Text
  pub created_at : ℤ
  pub expires_at : ℤ
  pub status : Status
  pub decided_at : Option ℤ
  pub approver : Option Text
  pub decided_receipt : Option Text

pub record ApprovalManager : Type 0 where
  pub ttl_seconds : ℤ
  pub requests : Dict ApprovalRequest

-- The ways in which `ApprovalError` is raised, and a `ValueError` of the canonical form.
pub data ApprovalError : Type 0 where
  unknown_request request_expired not_pending not_approved wrong_caller wrong_args : ApprovalError
  unhashable : Error → ApprovalError

pub data Reply : Type 0 where
  done : ApprovalRequest → Reply
  refused : ApprovalError → Reply

-- `ApprovalManager.__init__`
abbrev pub new_manager : ℤ → ApprovalManager
new_manager ttl = record { ttl_seconds = ttl; requests = [] }

-- `_args_hash`
unfoldable pub args_hash_of : Platform → Fields → Result Text
args_hash_of p args = canonical_json p (obj args) >>= λ b. ok (p.sha256_hex b)

-- The arguments of `create_request`.
pub record Ask : Type 0 where
  pub tool : Text
  pub agent_id : Text
  pub args : Fields
  pub reason : Text
  pub trace_id : Text

-- `"apr_"` and sixteen digits of a hash; `stamp` is `str(now) + secrets.token_hex(8)`.
abbrev pub new_id : Platform → Ask → Text → Text → Text
new_id p q hash stamp =
    text "apr_" ++ take 16 (p.sha256_hex (p.encode (q.tool ++ q.agent_id ++ hash ++ stamp)))

abbrev pub new_request : Platform → ApprovalManager → ℤ → Text → Ask → Text → ApprovalRequest
new_request p m now stamp q hash = record {
  request_id = new_id p q hash stamp;
  tool = q.tool;
  agent_id = q.agent_id;
  args_hash = hash;
  reason = q.reason;
  trace_id = q.trace_id;
  created_at = now;
  expires_at = now +ℤ m.ttl_seconds;
  status = pending;
  decided_at = none;
  approver = none;
  decided_receipt = none;
}

abbrev pub store : ApprovalManager → ApprovalRequest → Text → ApprovalManager
store m r i = record m { requests = put i r m.requests }

abbrev pub created :
    Platform → ApprovalManager → ℤ → Text → Ask → Result Text → ApprovalManager × Reply
created p m now stamp q (err e) = (m, refused (unhashable e))
created p m now stamp q (ok hash) = (
  store m (new_request p m now stamp q hash) (new_id p q hash stamp),
  done (new_request p m now stamp q hash),
)

unfoldable pub create_request :
    Platform → ApprovalManager → ℤ → Text → Ask → ApprovalManager × Reply
create_request p m now stamp q = created p m now stamp q (args_hash_of p q.args)

abbrev pub is_pending : Status → Bool
is_pending pending = true
is_pending _ = false

abbrev pub is_approved : Status → Bool
is_approved approved = true
is_approved _ = false

abbrev pub looked_up : ApprovalManager → ℤ → Text → Option ApprovalRequest → ApprovalManager × Reply
looked_up m now i none = (m, refused unknown_request)
looked_up m now i (some r) =
    if is_pending r.status && leb_ℤ r.expires_at now
    then (store m (record r { status = expired }) i, refused request_expired)
    else (m, done r)

-- `_get`
unfoldable pub get_request : ApprovalManager → ℤ → Text → ApprovalManager × Reply
get_request m now i = looked_up m now i (get i m.requests)

abbrev pub verdict : Bool → Status
verdict true = approved
verdict false = denied

-- A decision counts only while the request is pending.
abbrev pub decide_if :
    ApprovalManager → ℤ → Text → Bool → Text → ApprovalRequest → Bool → ApprovalManager × Reply
decide_if m now i approve who r false = (m, refused not_pending)
decide_if m now i approve who r true = (
  store m (record r { status = verdict approve; decided_at = some now; approver = some who }) i,
  done (record r { status = verdict approve; decided_at = some now; approver = some who }),
)

abbrev pub decided : ℤ → Text → Bool → Text → ApprovalManager × Reply → ApprovalManager × Reply
decided now i approve who (m, refused e) = (m, refused e)
decided now i approve who (m, done r) = decide_if m now i approve who r (is_pending r.status)

unfoldable pub decide : ApprovalManager → ℤ → Text → Bool → Text → ApprovalManager × Reply
unfolding get_request
decide m now i approve who = decided now i approve who (get_request m now i)

-- The arguments of `consume` beside the id.
pub record Resubmission : Type 0 where
  pub tool : Text
  pub agent_id : Text
  pub args : Fields

-- `request.args_hash != _args_hash(args)`
abbrev pub hash_test : Text → Result Text → Option ApprovalError
hash_test h (err e) = some (unhashable e)
hash_test h (ok g) = if text_eq h g then none else some wrong_args

-- The tests of `consume`, in their order.
unfoldable pub consume_error : Platform → ApprovalRequest → Resubmission → Option ApprovalError
consume_error p r c =
    if not (is_approved r.status)
    then some not_approved
    else if not (text_eq r.tool c.tool) || not (text_eq r.agent_id c.agent_id)
    then some wrong_caller
    else hash_test r.args_hash (args_hash_of p c.args)

abbrev pub settle :
    ApprovalManager → Text → ApprovalRequest → Option ApprovalError → ApprovalManager × Reply
settle m i r (some e) = (m, refused e)
settle m i r none =
    (store m (record r { status = consumed }) i, done (record r { status = consumed }))

abbrev pub presented :
    Platform → Text → Resubmission → ApprovalManager × Reply → ApprovalManager × Reply
presented p i c (m, refused e) = (m, refused e)
presented p i c (m, done r) = settle m i r (consume_error p r c)

unfoldable pub consume :
    Platform → ApprovalManager → ℤ → Text → Resubmission → ApprovalManager × Reply
unfolding get_request
consume p m now i c = presented p i c (get_request m now i)

abbrev is_listed : ℤ → ApprovalRequest → Bool
is_listed now r = is_pending r.status && ltb_ℤ now r.expires_at

listed : ℤ → Dict ApprovalRequest → List ApprovalRequest
listed now [] = []
listed now ((i, r) ∷ d) = let rest = listed now d in if is_listed now r then r ∷ rest else rest

-- `pending`, without the rendering of the requests.
unfoldable pub pending_requests : ApprovalManager → ℤ → List ApprovalRequest
unfolding listed
pending_requests m now = listed now m.requests
