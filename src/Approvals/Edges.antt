-- ===== src/Approvals/Edges.antt =====
-- The life of an approval request: the statuses it can pass through, and what each method does to it.
use mathlib.Core.Path.{subst}
use raucle.Prelude.{
  ◌≡◌, refl, sym, ap, ◌⊎◌, inl, inr, Bool, true, false, ◌&&◌, Option, none, some, arith, Bool-cases,
  if◌then◌else◌, &&_true,
}
use raucle.Prelude.Int.{ℤ, leb_ℤ}
use raucle.Text.{Text, text_eq, text_eq_sound}
use raucle.Platform.{Platform}
use raucle.Dict.{get, get-put, get-put_other}
use raucle.Result.{Result, ok, err}
use raucle.Approvals.Defs.{
  Status, pending, approved, denied, consumed, expired, ApprovalRequest, ApprovalManager, Reply,
  done, refused, decide_if, hash_test, ApprovalError, unknown_request, request_expired, Ask,
  Resubmission, store, create_request, decide, consume, new_id, args_hash_of, looked_up, decided,
  verdict, settle, presented, consume_error, is_pending, is_approved,
}

-- The changes of a request: a decision notes the time and the approver, and nothing else is written.
infix 40 ◌⟶◌
pub data ◌⟶◌ (r s : ApprovalRequest) : Type 0 where
  grant :
      (at : ℤ) (who : Text)
      → r.status ≡ pending
      → s ≡ record r { status = approved; decided_at = some at; approver = some who }
      → r ⟶ s
  deny :
      (at : ℤ) (who : Text)
      → r.status ≡ pending
      → s ≡ record r { status = denied; decided_at = some at; approver = some who }
      → r ⟶ s
  lapse : r.status ≡ pending → s ≡ record r { status = expired } → r ⟶ s
  spend : r.status ≡ approved → s ≡ record r { status = consumed } → r ⟶ s

-- A call of a method with what it takes from its surroundings: the clock and, for a new request, the
-- stamp in its id.
pub data Op : Type 0 where
  create : ℤ → Text → Ask → Op
  decision : ℤ → Text → Bool → Text → Op
  use_up : ℤ → Text → Resubmission → Op

unfoldable pub perform : Platform → ApprovalManager → Op → ApprovalManager × Reply
unfolding create_request decide consume
perform p m (create now stamp q) = create_request p m now stamp q
perform p m (decision now i approve who) = decide m now i approve who
perform p m (use_up now i c) = consume p m now i c

abbrev pub map_status : Option ApprovalRequest → Option Status
map_status none = none
map_status (some r) = some r.status

abbrev pub status_of : ApprovalManager → Text → Option Status
status_of m i = map_status (get i m.requests)

abbrev pub request_of : ApprovalManager → Text → Option ApprovalRequest
request_of m i = get i m.requests

-- A request stays as it is in every field or takes one step; one that is not there stays away.
abbrev pub Moves : Option ApprovalRequest → Option ApprovalRequest → Type 0
Moves none o = o ≡ none
Moves (some r) o = (o ≡ some r) ⊎ ((s : ApprovalRequest) × (o ≡ some s) × (r ⟶ s))

pub Moves-refl : (o : Option ApprovalRequest) → Moves o o
Moves-refl none = refl
Moves-refl (some r) = inl refl

-- A write under the key `i` moves every request as it moves `i`.
store-Moves :
    (m : ApprovalManager) (s : ApprovalRequest) (i j : Text)
    → Moves (request_of m i) (some s)
    → Moves (request_of m j) (request_of (store m s i) j)
store-Moves m s i j h = elim (Bool-cases (text_eq i j)) [
  | inl same ↦
      subst (λ k. Moves (request_of m k) (request_of (store m s i) k)) (text_eq_sound i j same)
        (rw (get-put i s m.requests) h)
  | inr other ↦ rw (get-put_other j i s m.requests other) (Moves-refl (request_of m j))
]

found :
    (m : ApprovalManager) (i : Text) (r s : ApprovalRequest)
    → get i m.requests ≡ some r
    → r ⟶ s
    → Moves (request_of m i) (some s)
found m i r s e edge = subst (λ o. Moves o (some s)) (sym e) (inr (s, refl, edge))

is_pending_sound : (s : Status) → is_pending s ≡ true → s ≡ pending
is_pending_sound pending h = refl
is_pending_sound approved h = cc
is_pending_sound denied h = cc
is_pending_sound consumed h = cc
is_pending_sound expired h = cc

is_approved_sound : (s : Status) → is_approved s ≡ true → s ≡ approved
is_approved_sound approved h = refl
is_approved_sound pending h = cc
is_approved_sound denied h = cc
is_approved_sound consumed h = cc
is_approved_sound expired h = cc

verdict-⟶ :
    (r : ApprovalRequest) (now : ℤ) (who : Text) (approve : Bool)
    → r.status ≡ pending
    → r ⟶ record r { status = verdict approve; decided_at = some now; approver = some who }
verdict-⟶ r now who true h = grant now who h refl
verdict-⟶ r now who false h = deny now who h refl

-- What a method does with the request that `_get` found: it leaves the manager alone, or writes a
-- request that is one step further.
abbrev pub Keeps :
    ApprovalManager → Text → (ApprovalManager × Reply → ApprovalManager × Reply) → Type 0
Keeps m i use_it =
    ((e : ApprovalError) (n : ApprovalManager) → (use_it (n, refused e)).0 ≡ n)
    × ((r : ApprovalRequest) (j : Text)
        → get i m.requests ≡ some r
        → Moves (request_of m j) (request_of (use_it (m, done r)).0 j))

pub looked-Moves :
    (m : ApprovalManager) (now : ℤ) (i j : Text) (o : Option ApprovalRequest)
    (use_it : ApprovalManager × Reply → ApprovalManager × Reply)
    → get i m.requests ≡ o
    → Keeps m i use_it
    → Moves (request_of m j) (request_of (use_it (looked_up m now i o)).0 j)
looked-Moves m now i j none use_it e (quiet, keeps) =
    rw (quiet unknown_request m) (Moves-refl (request_of m j))
looked-Moves m now i j (some r) use_it e (quiet, keeps) =
    by_test (is_pending r.status && leb_ℤ r.expires_at now) refl
  where
    late : ApprovalManager
    late = store m (record r { status = expired }) i

    by_test :
        (b : Bool)
        → (is_pending r.status && leb_ℤ r.expires_at now) ≡ b
        → Moves
            (request_of m j)
            (request_of (use_it (if b then (late, refused request_expired) else (m, done r))).0 j)
    by_test true h =
        let open_ = is_pending_sound r.status (&&_true (is_pending r.status) _ h).0 in
        rw (quiet request_expired late)
          (store-Moves m (record r { status = expired }) i j (found m i r _ e (lapse open_ refl)))
    by_test false h = keeps r j e

decide_if-Moves :
    (m : ApprovalManager) (now : ℤ) (i j : Text) (approve : Bool) (who : Text) (r : ApprovalRequest)
    (b : Bool)
    → get i m.requests ≡ some r
    → is_pending r.status ≡ b
    → Moves (request_of m j) (request_of (decide_if m now i approve who r b).0 j)
decide_if-Moves m now i j approve who r false e h = Moves-refl (request_of m j)
decide_if-Moves m now i j approve who r true e h =
    store-Moves m _ i j
      (found m i r _ e (verdict-⟶ r now who approve (is_pending_sound r.status h)))

pub decided-Keeps :
    (m : ApprovalManager) (now : ℤ) (i : Text) (approve : Bool) (who : Text)
    → Keeps m i (decided now i approve who)
decided-Keeps m now i approve who =
    ((λ e n. refl), (λ r j e. decide_if-Moves m now i j approve who r (is_pending r.status) e refl))

pub consume_error-none :
    (p : Platform) (r : ApprovalRequest) (c : Resubmission)
    → consume_error p r c ≡ none
    → (r.status ≡ approved)
      × (r.tool ≡ c.tool)
      × (r.agent_id ≡ c.agent_id)
      × (args_hash_of p c.args ≡ ok r.args_hash)
unfolding consume_error
consume_error-none p r c h =
    let a : is_approved r.status ≡ true = ground arith in
    let t : text_eq r.tool c.tool ≡ true = ground arith in
    let g : text_eq r.agent_id c.agent_id ≡ true = ground arith in
    let k : hash_test r.args_hash (args_hash_of p c.args) ≡ none = ground arith in
    (
      is_approved_sound r.status a,
      text_eq_sound r.tool c.tool t,
      text_eq_sound r.agent_id c.agent_id g,
      same (args_hash_of p c.args) k,
    )
  where
    same : (o : Result Text) → hash_test r.args_hash o ≡ none → o ≡ ok r.args_hash
    same (err e) h = cc
    same (ok g) h = elim (Bool-cases (text_eq r.args_hash g)) [
      | inl eq ↦ ap ok (sym (text_eq_sound r.args_hash g eq))
      | inr ne ↦ ground arith
    ]

settle-Moves :
    (p : Platform) (m : ApprovalManager) (i j : Text) (r : ApprovalRequest) (c : Resubmission)
    (o : Option ApprovalError)
    → get i m.requests ≡ some r
    → consume_error p r c ≡ o
    → Moves (request_of m j) (request_of (settle m i r o).0 j)
settle-Moves p m i j r c (some x) e h = Moves-refl (request_of m j)
settle-Moves p m i j r c none e h =
    store-Moves m _ i j (found m i r _ e (spend (consume_error-none p r c h).0 refl))

pub presented-Keeps :
    (p : Platform) (m : ApprovalManager) (i : Text) (c : Resubmission) → Keeps m i (presented p i c)
presented-Keeps p m i c =
    ((λ e n. refl), (λ r j e. settle-Moves p m i j r c (consume_error p r c) e refl))

-- The call makes a new request under the id.
abbrev pub makes : Platform → Text → Op → Bool
makes p i (create now stamp q) = made_under (args_hash_of p q.args)
  where
    made_under : Result Text → Bool
    made_under (err e) = false
    made_under (ok hash) = text_eq (new_id p q hash stamp) i
makes p i _ = false
