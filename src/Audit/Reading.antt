-- ===== src/Audit/Reading.antt =====
-- What `verify_chain` knows of a file that it finds no fault with: its events make a hash chain.
use mathlib.Core.Path.{subst}
use raucle.Prelude.{◌≡◌, refl, sym, ap, ◌∙◌, Bool, true, false, Option, none, some, List, [], ◌∷◌}
use raucle.Text.{Text, text}
use raucle.Json.{Fields, get_field}
use raucle.Json.Objects.{truthy}
use raucle.Platform.{Platform}
use raucle.Result.{ok, >>=-eq-ok, ok-injective}
use raucle.Audit.Sink.{Line, blank, bad_json, object_line, other_json, duplicate_keys}
use raucle.Audit.Report.{AuditVerifier, VerificationReport}
use raucle.Audit.Verify.{
  Progress, initial_progress, Head, verify_line, verify_lines, verify_object, verify_data,
  verify_chain, verify_end, verify_head, head_hash_ok, head_index_ok,
}
use raucle.Audit.Faults.{
  Stems, verify_checkpoint-Stems, verify_chain_header-Stems, verify_end-valid, verify_head-valid,
}
use raucle.Audit.Linked.{
  gather_line, gather, events, Chained, Seen, DigestsShow, event-Seen, keep_event,
}

-- A line that leaves the report valid found it valid.
line-Seen :
    (p : Platform) (v : AuditVerifier)
    → DigestsShow p
    → (g h : Progress) (l : Line) (es : List Fields) → verify_line p v g l ≡ ok h
    → h.report.valid ≡ true
    → (g.report.valid ≡ true) × (Seen p g es → Seen p h (gather_line es l))
unfolding verify_line
line-Seen p v shows g h blank es e valid = rw (ok-injective e) (valid, λ seen. seen)
line-Seen p v shows g h bad_json es e valid =
    let q : false ≡ true = ap (λ x. x.report.valid) (ok-injective e) ∙ valid in cc
line-Seen p v shows g h other_json es e valid = cc
line-Seen p v shows g h duplicate_keys es e valid = cc
line-Seen p v shows g h (object_line fs) es e valid =
    by_kind (truthy (get_field (text "chain_meta") fs)) (truthy (get_field (text "checkpoint") fs))
      refl e
  where
    stays :
        (x : Progress)
        → x ≡ h
        → Stems x.report g.report
        → x.prev_hash ≡ g.prev_hash
        → x.last_hash ≡ g.last_hash
        → (g.report.valid ≡ true) × (Seen p g es → Seen p h es)
    stays x same stems prev last =
        let (was, counted) = stems (ap (λ y. y.report.valid) same ∙ valid) in
        (
          was,
          λ seen.
              subst (λ y. Seen p y es) same
                record {
                  chain = subst (Chained p es) (sym prev) seen.chain;
                  count = seen.count ∙ sym counted;
                  tail = λ y q. seen.tail y (sym last ∙ q) ∙ sym prev;
                },
        )

    by_kind :
        (a b : Bool)
        → truthy (get_field (text "checkpoint") fs) ≡ b
        → verify_object p v g fs a ≡ ok h
        → (g.report.valid ≡ true)
          × (Seen p g es → Seen p h (keep_event (elim b [ true ↦ true | false ↦ a ]) fs es))
    by_kind true true d e =
        stays _ (ok-injective e) (verify_chain_header-Stems p v fs g.report) refl refl
    by_kind true false d e =
        stays _ (ok-injective e) (verify_chain_header-Stems p v fs g.report) refl refl
    by_kind false true d e =
        let e1 : verify_data p v g fs true ≡ ok h = rw d at e in
        stays _ (ok-injective e1)
          (verify_checkpoint-Stems p v fs g.leaf_hashes g.report.event_count g.report) refl refl
    by_kind false false d e =
        let e1 : verify_data p v g fs false ≡ ok h = rw d at e in
        event-Seen p shows g h fs es e1 valid

lines-Seen :
    (p : Platform) (v : AuditVerifier)
    → DigestsShow p
    → (ls : List Line) (g h : Progress) (es : List Fields) → verify_lines p v g ls ≡ ok h
    → h.report.valid ≡ true
    → (g.report.valid ≡ true) × (Seen p g es → Seen p h (gather es ls))
unfolding verify_lines
lines-Seen p v shows [] g h es e valid = (
  ap (λ x. x.report.valid) (ok-injective e) ∙ valid,
  λ seen. subst (λ x. Seen p x es) (ok-injective e) seen,
)
lines-Seen p v shows (l ∷ ls) g h es e valid =
    let (k, d, e1) = >>=-eq-ok (verify_line p v g l) (λ x. verify_lines p v x ls) e in
    let (mid, rest) = lines-Seen p v shows ls k h (gather_line es l) e1 valid in
    let (was, first) = line-Seen p v shows g k l es d mid in (was, λ seen. rest (first seen))

pub initial_progress-Seen : (p : Platform) → Seen p initial_progress []
initial_progress-Seen p = record { chain = refl; count = refl; tail = λ x q. cc }

-- The run of the loop behind a report that is valid, and what it knows at the end.
pub record Sound (p : Platform) (v : AuditVerifier) (ls : List Line) (d : Option Head)
    : Type 0 where
  pub last : Progress
  pub runs : verify_lines p v initial_progress ls ≡ ok last
  pub knows : Seen p last (events ls)
  pub index_named : (x : Head) → d ≡ some x → head_index_ok last.report.event_count x.index ≡ true
  pub hash_named : (x : Head) → d ≡ some x → head_hash_ok last.last_hash x.hash ≡ true

pub verify_chain-Sound :
    (p : Platform) (v : AuditVerifier)
    → DigestsShow p
    → (ls : List Line) (d : Option Head) (r : VerificationReport) → verify_chain p v ls d ≡ ok r
    → r.valid ≡ true
    → Sound p v ls d
unfolding verify_chain
verify_chain-Sound p v shows ls d r e valid =
    let (g, runs, e1) =
      >>=-eq-ok (verify_lines p v initial_progress ls)
        (λ g. ok (verify_head p g d (verify_end v g v.public_key))) e in
    by_head g runs d (ap (λ x. x.valid) (ok-injective e1) ∙ valid)
  where
    by_head :
        (g : Progress)
        → verify_lines p v initial_progress ls ≡ ok g
        → (o : Option Head) → (verify_head p g o (verify_end v g v.public_key)).valid ≡ true
        → Sound p v ls o
    by_head g runs none h = record {
      last = g;
      runs = runs;
      knows =
          (lines-Seen p v shows ls initial_progress g [] runs
              (verify_end-valid v g v.public_key h)).1
            (initial_progress-Seen p);
      index_named = λ x q. cc;
      hash_named = λ x q. cc;
    }
    by_head g runs (some y) h =
        let (i, a, rest) = verify_head-valid p g y _ h in
        record {
          last = g;
          runs = runs;
          knows =
              (lines-Seen p v shows ls initial_progress g [] runs
                  (verify_end-valid v g v.public_key rest)).1
                (initial_progress-Seen p);
          index_named = λ x q. let same : y ≡ x = cc in rw (← same) i;
          hash_named = λ x q. let same : y ≡ x = cc in rw (← same) a;
        }

-- A file that `verify_chain` reports as valid holds a hash chain: each of its event records has the index
-- of its place and stores the hash of its own canonical bytes, and names the hash that the record before
-- it stores, down to the genesis hash. No digest is printed as the empty text.
pub verify_chain-Chained :
    (p : Platform) (v : AuditVerifier) (shows : DigestsShow p) (ls : List Line) (d : Option Head)
    (r : VerificationReport)
    → verify_chain p v ls d ≡ ok r
    → r.valid ≡ true
    → (h : Text) × Chained p (events ls) h
verify_chain-Chained p v shows ls d r e valid =
    let s = verify_chain-Sound p v shows ls d r e valid in (s.last.prev_hash, s.knows.chain)
