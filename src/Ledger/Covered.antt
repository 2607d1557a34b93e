-- ===== src/Ledger/Covered.antt =====
-- What `register` guarantees: a signed token, a row that is resolved and read back, and a revocation where
-- a hold is in force.
use mathlib.Core.Path.{subst}
use raucle.Prelude.{
  ℕ, ◌≡◌, refl, sym, ap, ◌∙◌, inl, inr, Bool, true, false, not, Option, none, some, List, [], ◌∷◌,
  ◌++◌, arith, Bool-cases, if◌then◌else◌, In, In-right, or_default,
}
use raucle.Text.{Text, is_empty}
use raucle.Platform.{Platform}
use raucle.Dict.{get, put, get-put}
use raucle.Result.{
  ok, err, require, >>=-eq-ok, require-eq-ok, ok-injective, unsigned_record, hold_uncovered,
  bad_record_signature,
}
use raucle.Token.{Capability}
use raucle.Gate.{verify_signature}
use raucle.Json.{Fields}
use raucle.Wire.{to_dict, from_dict, dict_token_id, dict_signature}
use raucle.Wire.Back.{to_dict-token_id, to_dict-signature}
use raucle.Ledger.Defs.{Row, Marker, Revocation, Disk, DelegationLedger, ensure_loaded}
use raucle.Ledger.Holds.{
  chain_ids, active_holds, hits, first_hit, hold_on, hold_check, surface, revocation, revoke_on,
  propagate, cover,
}
use raucle.Ledger.InForce.{InForce, active_holds-InForce}
use raucle.Ledger.Register.{
  key_test, row_hash, Registered, settle_row, register, parsed, resolve_in, resolve,
}

-- A registration that returned, step by step.
pub record Registration (p : Platform) (l : DelegationLedger) (d : Disk) (now : ℕ) (stamp : Text)
    (key : Option Text) (agent : Text) (c : Capability) (s : Registered) : Type 0 where
  pub token : Fields
  pub written_as : to_dict p c ≡ ok token
  pub signed : is_empty (dict_signature token) ≡ false
  pub pem : Text
  pub by_key : key ≡ some pem
  pub verified : verify_signature p c pem ≡ true
  pub loaded : DelegationLedger
  pub fresh : ensure_loaded l d ≡ ok loaded
  pub covered : Disk
  pub covers : cover d token stamp (hold_on loaded token agent) ≡ ok covered
  pub result :
      s
      ≡ settle_row
          (loaded, covered)
          now
          (record {
            token = token;
            delegated_to_agent = agent;
            record_hash = row_hash p token agent;
          })

key_test-ok :
    (p : Platform) (c : Capability) (key : Option Text) {u : Unit {0}}
    → key_test p c key ≡ ok u
    → (pem : Text) × (key ≡ some pem) × (verify_signature p c pem ≡ true)
key_test-ok p c none h = cc
key_test-ok p c (some pem) h = (pem, refl, by_test (verify_signature p c pem) h)
  where
    by_test : (b : Bool) {u : Unit {0}} → require b bad_record_signature ≡ ok u → b ≡ true
    by_test true h = refl
    by_test false h = cc

pub register-Registration :
    (p : Platform) (l : DelegationLedger) (d : Disk) (now : ℕ) (stamp : Text) (key : Option Text)
    (agent : Text) (c : Capability) (s : Registered)
    → register p l d now stamp key agent c ≡ ok s
    → Registration p l d now stamp key agent c s
unfolding register hold_check
register-Registration p l d now stamp key agent c s h =
    let (t, e1, h1) = >>=-eq-ok (to_dict p c) _ h in
    let (b, h2) = require-eq-ok (not (is_empty (dict_signature t))) unsigned_record _ h1 in
    let (u, e3, h3) = >>=-eq-ok (key_test p c key) _ h2 in
    let (pem, k, v) = key_test-ok p c key e3 in
    let (pair, e4, h4) = >>=-eq-ok (hold_check l d t agent stamp) _ h3 in
    let (m, f, g) = >>=-eq-ok (ensure_loaded l d) _ e4 in
    let (e, x, y) = >>=-eq-ok (cover d t stamp (hold_on m t agent)) _ g in
    let same : (m, e) ≡ pair = ok-injective y in
    record {
      token = t;
      written_as = e1;
      signed = ground arith;
      pem = pem;
      by_key = k;
      verified = v;
      loaded = m;
      fresh = f;
      covered = e;
      covers = x;
      result =
          sym (ok-injective h4)
          ∙ ap
              (λ q. settle_row q now (record {
                token = t;
                delegated_to_agent = agent;
                record_hash = row_hash p t agent;
              }))
              (sym same);
    }

-- A revocations file lists the token.
abbrev pub Revoked : Disk → Text → Text → Type 0
Revoked d path i =
    (rs : List Revocation) × (get path d.revocations ≡ some rs)
    × (r : Revocation) × In r rs
    × (r.token_id ≡ i)

propagate-Revoked :
    (d e : Disk) (t : Fields) (m : Marker) (stamp : Text)
    → propagate d t m stamp ≡ ok e
    → Revoked e (surface m) (dict_token_id t)
unfolding propagate
propagate-Revoked d e t m stamp h = by_tests (is_empty (surface m)) (d.writable (surface m)) h
  where
    r : Revocation
    r = revocation t m stamp

    before : List Revocation
    before = or_default (get (surface m) d.revocations) []

    by_tests :
        (a b : Bool)
        → (if a
            then err hold_uncovered
            else if b
            then ok (revoke_on d (surface m) r)
            else err hold_uncovered)
          ≡ ok e
        → Revoked e (surface m) (dict_token_id t)
    by_tests true b h = cc
    by_tests false false h = cc
    by_tests false true h =
        subst (λ x. Revoked x (surface m) (dict_token_id t)) (ok-injective h)
          (
            before ++ r ∷ [],
            get-put (surface m) (before ++ r ∷ []) d.revocations,
            r,
            In-right r before (r ∷ []) (inl refl),
            refl,
          )

-- A hold that hits the token leaves a first one that does.
first_hit-some :
    (chain : List Text) (agent : Text) (m : Marker) (ms : List Marker)
    → In m ms
    → hits chain agent m ≡ true
    → (n : Marker) × (first_hit chain agent ms ≡ some n) × (hits chain agent n ≡ true) × In n ms
first_hit-some chain agent m [] i h = absurd i
first_hit-some chain agent m (x ∷ ms) i h = elim (Bool-cases (hits chain agent x)) [
  | inl hit ↦ (x, rw hit refl, hit, inl refl)
  | inr miss ↦ elim i [
    | inl same ↦ (let e : hits chain agent x ≡ true = rw (← same) h in cc)
    | inr rest ↦
        (let (n, e, k, there) = first_hit-some chain agent m ms rest h in
          (n, rw miss e, k, inr there))
  ]
]

-- No authority enters a held scope uncovered: when a registration returns while a hold is in force that
-- hits the agent or the chain of the token, one of the ledger's active holds that hit it has the token in
-- the revocations file that this hold names.
-- The control rows are those of the ledger as it is read for the call.
pub register-covers :
    (p : Platform) (l m : DelegationLedger) (d : Disk) (now : ℕ) (stamp : Text) (key : Option Text)
    (agent : Text) (c : Capability) (t : Fields) (s : Registered) (hold : Marker)
    → register p l d now stamp key agent c ≡ ok s
    → ensure_loaded l d ≡ ok m
    → to_dict p c ≡ ok t
    → InForce hold m.control_rows
    → hits (chain_ids m.records t) agent hold ≡ true
    → (n : Marker) × In n (active_holds m)
      × (hits (chain_ids m.records t) agent n ≡ true)
      × Revoked s.disk (surface n) c.token_id
unfolding hold_on
register-covers p l m d now stamp key agent c t s hold h fresh e force hit =
    let g = register-Registration p l d now stamp key agent c s h in
    let same_ledger : g.loaded ≡ m = ok-injective (sym g.fresh ∙ fresh) in
    let same_token : g.token ≡ t = ok-injective (sym g.written_as ∙ e) in
    let (n, first, k, there) =
      first_hit-some (chain_ids m.records t) agent hold (active_holds m)
        (active_holds-InForce m hold force) hit in
    let on : hold_on g.loaded g.token agent ≡ some n =
      subst (λ y. hold_on y g.token agent ≡ some n) (sym same_ledger)
        (subst (λ y. hold_on m y agent ≡ some n) (sym same_token) first) in
    let done : propagate d g.token n stamp ≡ ok g.covered =
      subst (λ o. cover d g.token stamp o ≡ ok g.covered) on g.covers in
    let listed : Revoked g.covered (surface n) c.token_id =
      subst (λ x. Revoked g.covered (surface n) x) (to_dict-token_id p c g.token g.written_as)
        (propagate-Revoked d g.covered g.token n stamp done) in
    (n, there, k, rw g.result listed)

-- A registered token was signed: its signature is not empty and verifies under the key of the call; and
-- from then on the resolver answers its id, from any state of the files, with what `from_dict` makes of
-- what `to_dict` wrote.
pub register-resolves :
    (p : Platform) (l : DelegationLedger) (d e : Disk) (now : ℕ) (stamp : Text) (key : Option Text)
    (agent : Text) (c : Capability) (t : Fields) (s : Registered)
    → register p l d now stamp key agent c ≡ ok s
    → to_dict p c ≡ ok t
    → ((pem : Text) × (key ≡ some pem) × (verify_signature p c pem ≡ true))
      × (is_empty c.signature ≡ false)
      × (resolve s.ledger e c.token_id ≡ ok (parsed (from_dict t)))
unfolding resolve
register-resolves p l d e now stamp key agent c t s h q =
    let g = register-Registration p l d now stamp key agent c s h in
    let same_token : g.token ≡ t = ok-injective (sym g.written_as ∙ q) in
    let i = dict_token_id g.token in
    let row : Row = record {
      token = g.token;
      delegated_to_agent = agent;
      record_hash = row_hash p g.token agent;
    } in
    let there : get i (put i row g.loaded.records) ≡ some row = get-put i row g.loaded.records in
    let done = settle_row (g.loaded, g.covered) now row in
    let found : resolve done.ledger e i ≡ ok (parsed (from_dict g.token)) =
      ap (resolve_in done.ledger e i) there in
    let answer : resolve s.ledger e i ≡ ok (parsed (from_dict g.token)) =
      subst (λ y. resolve y.ledger e i ≡ ok (parsed (from_dict g.token))) (sym g.result) found in
    (
      (g.pem, g.by_key, g.verified),
      subst (λ x. is_empty x ≡ false) (to_dict-signature p c g.token g.written_as) g.signed,
      subst (λ x. resolve s.ledger e x ≡ ok (parsed (from_dict t)))
          (to_dict-token_id p c g.token g.written_as)
          (subst (λ x. resolve s.ledger e i ≡ ok (parsed (from_dict x))) same_token answer),
    )
