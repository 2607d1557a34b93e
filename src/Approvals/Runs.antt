-- ===== src/Approvals/Runs.antt =====
-- Runs of the approval manager: what a consumed reference proves, and that it pays once.
use mathlib.Core.Path.{subst}
use raucle.Prelude.{
  ◌≡◌, refl, sym, ◌∙◌, inl, inr, Bool, true, false, ◌&&◌, Option, none, some, List, [], ◌∷◌, All,
  arith, ℕ, suc, ◌≤◌, Bool-cases, if◌then◌else◌, &&_true,
}
use raucle.Prelude.Int.{ℤ, leb_ℤ}
use raucle.Text.{Text, text_eq, text_eq_sound}
use raucle.Platform.{Platform}
use raucle.Dict.{get, get-put, get-put_other}
use raucle.Result.{Result, ok, err}
use raucle.Approvals.Defs.{
  approved, consumed, expired, ApprovalRequest, ApprovalManager, Reply, done, refused,
  ApprovalError, request_expired, Ask, Resubmission, store, create_request, decide, consume, new_id,
  created, args_hash_of, looked_up, decided, get_request, settle, presented, consume_error,
  is_pending,
}
use raucle.Approvals.Edges.{
  ◌⟶◌, grant, deny, lapse, spend, Op, create, decision, use_up, perform, map_status, status_of,
  request_of, Moves, Moves-refl, looked-Moves, decided-Keeps, presented-Keeps, consume_error-none,
  makes,
}

created-Moves :
    (p : Platform) (m : ApprovalManager) (now : ℤ) (stamp : Text) (q : Ask) (j : Text)
    (h : Result Text)
    → ((hash : Text) → h ≡ ok hash → text_eq (new_id p q hash stamp) j ≡ false)
    → Moves (request_of m j) (request_of (created p m now stamp q h).0 j)
created-Moves p m now stamp q j (err e) other = Moves-refl (request_of m j)
created-Moves p m now stamp q j (ok hash) other =
    rw (get-put_other j (new_id p q hash stamp) _ m.requests (other hash refl))
      (Moves-refl (request_of m j))

pub perform-Moves :
    (p : Platform) (m : ApprovalManager) (op : Op) (i : Text)
    → makes p i op ≡ false
    → Moves (request_of m i) (request_of (perform p m op).0 i)
unfolding perform create_request decide consume get_request
perform-Moves p m (create now stamp q) i h =
    created-Moves p m now stamp q i (args_hash_of p q.args) (λ hash e. rw e at h)
perform-Moves p m (decision now k approve who) i h =
    looked-Moves m now k i (get k m.requests) (decided now k approve who) refl
      (decided-Keeps m now k approve who)
perform-Moves p m (use_up now k c) i h =
    looked-Moves m now k i (get k m.requests) (presented p k c) refl (presented-Keeps p m k c)

-- The request that a consumed reference names: approved before, for this tool, this agent and these
-- arguments, and consumed after.
pub record Paid (p : Platform) (m : ApprovalManager) (i : Text) (c : Resubmission)
    (n : ApprovalManager) : Type 0 where
  pub request : ApprovalRequest
  pub found : get i m.requests ≡ some request
  pub was_approved : request.status ≡ approved
  pub same_tool : request.tool ≡ c.tool
  pub same_agent : request.agent_id ≡ c.agent_id
  pub same_args : args_hash_of p c.args ≡ ok request.args_hash
  pub now_consumed : status_of n i ≡ some consumed

abbrev pub is_done : Reply → Bool
is_done (done r) = true
is_done (refused e) = false

settle-Paid :
    (p : Platform) (m : ApprovalManager) (i : Text) (c : Resubmission) (r : ApprovalRequest)
    (o : Option ApprovalError)
    → get i m.requests ≡ some r
    → consume_error p r c ≡ o
    → is_done (settle m i r o).1 ≡ true
    → Paid p m i c (settle m i r o).0
settle-Paid p m i c r (some x) e h d = cc
settle-Paid p m i c r none e h d =
    let (a, t, g, k) = consume_error-none p r c h in
    record {
      request = r;
      found = e;
      was_approved = a;
      same_tool = t;
      same_agent = g;
      same_args = k;
      now_consumed = rw (get-put i (record r { status = consumed }) m.requests) refl;
    }

presented-Paid :
    (p : Platform) (m : ApprovalManager) (now : ℤ) (i : Text) (c : Resubmission)
    (o : Option ApprovalRequest)
    → get i m.requests ≡ o
    → is_done (presented p i c (looked_up m now i o)).1 ≡ true
    → Paid p m i c (presented p i c (looked_up m now i o)).0
presented-Paid p m now i c none e d = cc
presented-Paid p m now i c (some r) e d = by_test (is_pending r.status && leb_ℤ r.expires_at now) d
  where
    by_test :
        (b : Bool)
        → is_done
            (presented p i c (
              if◌then◌else◌ {A = ApprovalManager × Reply} b
                (store m (record r { status = expired }) i, refused request_expired)
                (m, done r))).1
          ≡ true
        → Paid p m i c
            (presented p i c (
              if◌then◌else◌ {A = ApprovalManager × Reply} b
                (store m (record r { status = expired }) i, refused request_expired)
                (m, done r))).0
    by_test true d = cc
    by_test false d = settle-Paid p m i c r (consume_error p r c) e refl d

-- A reference that `consume` honours is of a request that was approved, for the same tool, agent and
-- hash of the arguments, and is consumed after.
pub consume-Paid :
    (p : Platform) (m : ApprovalManager) (now : ℤ) (i : Text) (c : Resubmission)
    → is_done (consume p m now i c).1 ≡ true
    → Paid p m i c (consume p m now i c).0
unfolding consume get_request
consume-Paid p m now i c d = presented-Paid p m now i c (get i m.requests) refl d

unfoldable pub run : Platform → ApprovalManager → List Op → ApprovalManager
run p m [] = m
run p m (op ∷ ops) = run p (perform p m op).0 ops

-- The call spends the reference `i`.
abbrev pub spends : Platform → ApprovalManager → Text → Op → Bool
spends p m i (create now stamp q) = false
spends p m i (decision now k approve who) = false
spends p m i (use_up now k c) = text_eq k i && is_done (consume p m now k c).1

abbrev pub bump : Bool → ℕ → ℕ
bump true n = suc n
bump false n = n

-- How often the run spends the reference `i`.
unfoldable pub times_spent : Platform → ApprovalManager → Text → List Op → ℕ
times_spent p m i [] = 0
times_spent p m i (op ∷ ops) =
    let rest = times_spent p (perform p m op).0 i ops in bump (spends p m i op) rest

spends-status :
    (p : Platform) (m : ApprovalManager) (i : Text) (op : Op)
    → spends p m i op ≡ true
    → (status_of m i ≡ some approved) × (status_of (perform p m op).0 i ≡ some consumed)
unfolding perform
spends-status p m i (create now stamp q) h = cc
spends-status p m i (decision now k approve who) h = cc
spends-status p m i (use_up now k c) h =
    let (same, d) = &&_true (text_eq k i) _ h in
    let paid = consume-Paid p m now k c d in
    let before : status_of m k ≡ some approved = rw (paid.found, paid.was_approved) refl in
    subst
      (λ x. (status_of m x ≡ some approved) × (status_of (consume p m now k c).0 x ≡ some consumed))
      (text_eq_sound k i same) (before, paid.now_consumed)

consumed-stays :
    (p : Platform) (m : ApprovalManager) (op : Op) (i : Text)
    → makes p i op ≡ false
    → status_of m i ≡ some consumed
    → status_of (perform p m op).0 i ≡ some consumed
consumed-stays p m op i other h =
    stays (request_of m i) (request_of (perform p m op).0 i) h (perform-Moves p m op i other)
  where
    no_step : (r s : ApprovalRequest) → some r.status ≡ some consumed → r ⟶ s → ⊥
    no_step r s h edge = elim edge [
      | grant at who k e ↦ cc
      | deny at who k e ↦ cc
      | lapse k e ↦ cc
      | spend k e ↦ cc
    ]

    stays :
        (o n : Option ApprovalRequest)
        → map_status o ≡ some consumed
        → Moves o n
        → map_status n ≡ some consumed
    stays none n h k = cc
    stays (some r) n h (inl e) = rw e h
    stays (some r) n h (inr (s, e, edge)) = absurd (no_step r s h edge)

bump_quiet : (b : Bool) (n k : ℕ) → b ≡ false → n ≤ k → bump b n ≤ k
bump_quiet true n k e h = cc
bump_quiet false n k e h = h

bump_last : (b : Bool) (n : ℕ) → n ≤ 0 → bump b n ≤ 1
bump_last true n h = omega arith
bump_last false n h = omega arith

spent_none :
    (p : Platform) (m : ApprovalManager) (i : Text) (ops : List Op)
    → All (λ op. makes p i op ≡ false) ops
    → status_of m i ≡ some consumed
    → times_spent p m i ops ≤ 0
unfolding times_spent
spent_none p m i [] h s = omega arith
spent_none p m i (op ∷ ops) (other, h) s = elim (Bool-cases (spends p m i op)) [
  | inl yes_it ↦
      (let k = (spends-status p m i op yes_it).0 in
        let e : some consumed ≡ some approved = sym s ∙ k in cc)
  | inr no_it ↦
      bump_quiet (spends p m i op) _ 0 no_it
        (spent_none p (perform p m op).0 i ops h (consumed-stays p m op i other s))
]

-- An approval pays for one action: in every run, from every state of the manager, a reference is
-- consumed at most once, if no call of the run makes a new request under the same id.
pub consume_once :
    (p : Platform) (m : ApprovalManager) (i : Text) (ops : List Op)
    → All (λ op. makes p i op ≡ false) ops
    → times_spent p m i ops ≤ 1
unfolding times_spent
consume_once p m i [] h = omega arith
consume_once p m i (op ∷ ops) (other, h) = elim (Bool-cases (spends p m i op)) [
  | inl paid ↦
      bump_last (spends p m i op) _
        (spent_none p (perform p m op).0 i ops h (spends-status p m i op paid).1)
  | inr quiet ↦ bump_quiet (spends p m i op) _ 1 quiet (consume_once p (perform p m op).0 i ops h)
]
