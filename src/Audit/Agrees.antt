-- ===== src/Audit/Agrees.antt =====
-- The verifier keeps step with the sink: what it knows of the file, line by line.
use mathlib.Core.Path.{subst}
use raucle.Prelude.{
  ℕ, suc, ◌≡◌, refl, sym, ap, ◌∙◌, true, false, Option, none, some, List, [], ◌∷◌, ◌++◌, length,
  arith, ltb,
}
use raucle.Text.{Text, text, text_eq, text_eq_refl, is_empty}
use raucle.Json.{Fields, obj, get_field}
use raucle.Json.Objects.{object, remove_field}
use raucle.Json.Portable.{audit_json}
use raucle.Platform.{Platform, Bytes}
use raucle.Result.{ok, >>=-eq-ok, ok-injective}
use raucle.Audit.Merkle.{merkle_root}
use raucle.Audit.Sink.{
  Signer, PqSigner, Sink, Line, signed_body, checkpoint_body, object_line, header_line, empty_sink,
  event_body, event_record, chained, checkpoint_record, write_line,
}
use raucle.Audit.Report.{new_report, AuditVerifier, signed}
use raucle.Audit.Records.{recomputed_hash, verify_event_record, verify_chain_header}
use raucle.Audit.Verify.{
  Progress, initial_progress, verify_line, verify_lines, after_event, mark, or_previous,
}
use raucle.Audit.Life.{Written, Checkpoints, Written-preserves, header_line-signed}
use raucle.Audit.Signed.{
  Fits, header_fields, checkpoint_fields, signed_header-passes, signed_checkpoint-passes,
  is_integer-own,
}

pub verify_lines-append :
    (p : Platform) (v : AuditVerifier) (g h : Progress) (ls ks : List Line)
    → verify_lines p v g ls ≡ ok h
    → verify_lines p v g (ls ++ ks) ≡ verify_lines p v h ks
unfolding verify_lines
verify_lines-append p v g h [] ks e = ap (λ x. verify_lines p v x ks) (ok-injective e)
verify_lines-append p v g h (l ∷ ls) ks e =
    let (u, d, e1) = >>=-eq-ok (verify_line p v g l) (λ x. verify_lines p v x ls) e in
    rw d (verify_lines-append p v u h ls ks e1)

verify_lines-one :
    (p : Platform) (v : AuditVerifier) (g h : Progress) (l : Line)
    → verify_line p v g l ≡ ok h
    → verify_lines p v g (l ∷ []) ≡ ok h
unfolding verify_lines
verify_lines-one p v g h l e = rw e refl

-- The verifier has read the file so far, found no fault, and is where the sink is.
pub record Agrees (p : Platform) (k : Signer) (v : AuditVerifier) (s : Sink) : Type 0 where
  pub progress : Progress
  pub read : verify_lines p v initial_progress s.file ≡ ok progress
  pub owner : s.signer ≡ some k
  pub same_tail : progress.prev_hash ≡ s.prev_hash
  pub same_leaves : progress.leaf_hashes ≡ s.leaf_hashes
  pub same_count : progress.report.event_count ≡ s.next_index
  pub no_fault : progress.report.valid ≡ true
  pub is_signed_mode : progress.report.signed_mode ≡ signed
  pub chain_key : progress.report.chain_key_id ≡ k.key_id
  pub sized : length s.leaf_hashes ≡ s.next_index

header-verifies :
    (p : Platform) (k : Signer) (v : AuditVerifier) (f : Fits p k v) (stamp : Text) (m : Bytes)
    → audit_json p (obj (object (signed_body k stamp))) ≡ ok m
    → verify_line p v initial_progress (object_line (header_fields p k stamp m k.hybrid))
      ≡ ok (record initial_progress {
        report = record new_report { signed_mode = signed; chain_key_id = k.key_id };
      })
unfolding verify_line verify_chain_header get_field text_eq
header-verifies p k v f stamp m e =
    ap (λ r. ok (record initial_progress { report = r }))
      (signed_header-passes p k v stamp m (record new_report { signed_mode = signed }) k.hybrid f
        f.second e)

header-Agrees :
    (p : Platform) (k : Signer) (n : ℕ) (v : AuditVerifier)
    → Fits p k v
    → (stamp : Text) (fs : Fields) → header_line p (some k) stamp ≡ ok fs
    → Agrees p k v (write_line (empty_sink (some k) n []) fs)
header-Agrees p k n v f stamp fs h =
    let (m, e, same) = header_line-signed p k stamp fs h in
    subst (λ x. Agrees p k v (write_line (empty_sink (some k) n []) x)) same
      record {
        progress = record initial_progress {
          report = record new_report { signed_mode = signed; chain_key_id = k.key_id };
        };
        read = verify_lines-one p v initial_progress _ _ (header-verifies p k v f stamp m e);
        owner = refl;
        same_tail = refl;
        same_leaves = refl;
        same_count = refl;
        no_fault = refl;
        is_signed_mode = refl;
        chain_key = refl;
        sized = refl;
      }

or_previous-shown : (s t : Text) → is_empty s ≡ false → or_previous s t ≡ s
or_previous-shown [] t h = cc
or_previous-shown (c ∷ s) t h = refl

event-verifies :
    (p : Platform) (v : AuditVerifier) (g : Progress) (stamp : Text) (event : Fields) (m : Bytes)
    → audit_json p (obj (object (event_body g.report.event_count stamp g.prev_hash event))) ≡ ok m
    → verify_line p v g
        (object_line (event_record g.report.event_count stamp g.prev_hash event (p.sha256_hex m)))
      ≡ ok (after_event g (p.sha256_hex m) g.report)
unfolding verify_line verify_event_record recomputed_hash get_field remove_field text_eq
event-verifies p v g stamp event m e =
    rw
      (
        e,
        is_integer-own g.report.event_count,
        text_eq_refl g.prev_hash,
        text_eq_refl (p.sha256_hex m),
      )
      refl

length-snoc {ℓ} : {A : Type ℓ} (xs : List A) (x : A) → length (xs ++ x ∷ []) ≡ suc (length xs)
length-snoc [] x = refl
length-snoc (y ∷ xs) x = ap suc (length-snoc xs x)

event-Agrees :
    (p : Platform) (k : Signer) (v : AuditVerifier)
    → Fits p k v
    → (s : Sink) (stamp : Text) (event : Fields) (m : Bytes)
    → audit_json p (obj (object (event_body s.next_index stamp s.prev_hash event))) ≡ ok m
    → Agrees p k v s
    → Agrees p k v (chained s stamp event (p.sha256_hex m))
event-Agrees p k v f s stamp event m e a =
    let g = a.progress in
    let step : verify_line p v g
          (object_line (event_record s.next_index stamp s.prev_hash event (p.sha256_hex m)))
        ≡ ok (after_event g (p.sha256_hex m) g.report) =
      rw (← a.same_count, ← a.same_tail)
        (event-verifies p v g stamp event m (rw (a.same_count, a.same_tail) e)) in
    record {
      progress = after_event g (p.sha256_hex m) g.report;
      read =
          verify_lines-append p v initial_progress g s.file _ a.read
          ∙ verify_lines-one p v g _ _ step;
      owner = a.owner;
      same_tail = or_previous-shown (p.sha256_hex m) g.prev_hash (f.digest_shown m);
      same_leaves = ap (λ xs. xs ++ p.sha256_hex m ∷ []) a.same_leaves;
      same_count = ap suc a.same_count;
      no_fault = a.no_fault;
      is_signed_mode = a.is_signed_mode;
      chain_key = a.chain_key;
      sized = length-snoc s.leaf_hashes (p.sha256_hex m) ∙ ap suc a.sized;
    }

ltb-suc : (n : ℕ) → ltb n (suc n) ≡ true
ltb-suc n = ground arith

-- The verifier's state after a checkpoint that it accepts.
abbrev pub signed_at : Progress → Progress
signed_at g = record g {
  report = record g.report {
    checkpoint_count = suc g.report.checkpoint_count;
    valid_signatures = suc g.report.valid_signatures;
  };
  attested = some g.report.event_count;
}

no_header :
    (p : Platform) (k : Signer) (n : ℕ) (root stamp : Text) (m : Bytes) (o : Option PqSigner)
    → get_field (text "chain_meta") (checkpoint_fields p k n root stamp m o) ≡ none
unfolding get_field text_eq
no_header p k n root stamp m none = refl
no_header p k n root stamp m (some q) = refl

checkpoint-verifies :
    (p : Platform) (k : Signer) (v : AuditVerifier) (f : Fits p k v) (g : Progress)
    (stamp root : Text) (m : Bytes)
    → merkle_root p g.leaf_hashes ≡ ok root
    → audit_json p (obj (object (checkpoint_body g.report.event_count root k.key_id))) ≡ ok m
    → g.report.signed_mode ≡ signed
    → g.report.chain_key_id ≡ k.key_id
    → verify_line p v g
        (object_line (checkpoint_fields p k g.report.event_count root stamp m k.hybrid))
      ≡ ok (signed_at g)
unfolding verify_line get_field text_eq
checkpoint-verifies p k v f g stamp root m t e mode key =
    let n = g.report.event_count in
    let leaves = g.leaf_hashes in
    let marked : ok (mark g (signed_at g).report) ≡ ok (signed_at g) =
      rw (ltb-suc g.report.valid_signatures) refl in
    let passes =
      signed_checkpoint-passes p k v stamp root m g.report leaves n k.hybrid f f.second t e mode
        key in
    rw (no_header p k n root stamp m k.hybrid) (ap (λ r. ok (mark g r)) passes ∙ marked)

pub checkpoint-read :
    (p : Platform) (k : Signer) (v : AuditVerifier) (f : Fits p k v) (s : Sink) (stamp : Text)
    (t : Sink) (c : Checkpoints p s stamp t) (a : Agrees p k v s)
    → verify_lines p v initial_progress t.file ≡ ok (signed_at a.progress)
checkpoint-read p k v f s stamp t c a =
    let g = a.progress in
    let both : some c.by_key ≡ some k = sym c.by_signer ∙ a.owner in
    let own : c.by_key ≡ k = cc in
    let e : audit_json p (obj (object (checkpoint_body g.report.event_count c.root k.key_id)))
        ≡ ok c.signed_bytes =
      rw (a.same_count, ← own) c.signed_of in
    let step =
      checkpoint-verifies p k v f g stamp c.root c.signed_bytes (rw a.same_leaves c.root_of_leaves)
        e a.is_signed_mode a.chain_key in
    let line : verify_line p v g
          (object_line (checkpoint_record p c.by_key s.next_index c.root stamp c.signed_bytes))
        ≡ ok (signed_at g) =
      rw (own, ← a.same_count) step in
    rw c.written
      (verify_lines-append p v initial_progress g s.file _ a.read ∙ verify_lines-one p v g _ _ line)

checkpoint-Agrees :
    (p : Platform) (k : Signer) (v : AuditVerifier)
    → Fits p k v
    → (s : Sink) (stamp : Text) (c : (t : Sink) × Checkpoints p s stamp t) → Agrees p k v s
    → Agrees p k v (c.0)
checkpoint-Agrees p k v f s stamp (t, c) a = record {
  progress = signed_at a.progress;
  read = checkpoint-read p k v f s stamp t c a;
  owner = rw c.written a.owner;
  same_tail = rw c.written a.same_tail;
  same_leaves = rw c.written a.same_leaves;
  same_count = rw c.written a.same_count;
  no_fault = a.no_fault;
  is_signed_mode = a.is_signed_mode;
  chain_key = a.chain_key;
  sized = rw c.written a.sized;
}

pub Written-Agrees :
    (p : Platform) (k : Signer) (n : ℕ) (v : AuditVerifier) (f : Fits p k v) (s : Sink)
    → Written p (some k) n s
    → Agrees p k v s
Written-Agrees p k n v f s w =
    Written-preserves p (some k) n (Agrees p k v) (header-Agrees p k n v f) (event-Agrees p k v f)
      (checkpoint-Agrees p k v f) w
