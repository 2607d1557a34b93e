-- ===== src/Audit/Linked.antt =====
-- The hash chain of the event records in a file, and the test of one record.
use mathlib.Core.Path.{subst}
use raucle.Prelude.{
  ℕ, suc, ◌≡◌, refl, sym, ap, ◌∙◌, Bool, true, false, Option, some, List, [], ◌∷◌, length, arith,
}
use raucle.Prelude.Int.{pos}
use raucle.Text.{Text, text, text_eq_sound, is_empty}
use raucle.Json.{Value, scalar, str, obj, Fields, get_field}
use raucle.Json.Objects.{remove_field, text_of, is_text, is_integer, int_value, value_or}
use raucle.Json.Portable.{audit_json}
use raucle.Platform.{Platform, Bytes}
use raucle.Result.{ok, >>=-eq-ok, ok-injective}
use raucle.Audit.Sink.{Line, object_line, is_metadata, genesis_hash}
use raucle.Audit.Report.{
  VerificationReport, fault_at_unless, hash_mismatch, prev_hash_mismatch, index_mismatch,
}
use raucle.Audit.Records.{recomputed_hash, verify_event_record}
use raucle.Audit.Verify.{Progress, or_previous, verify_event, after_event}
use raucle.Audit.Faults.{fault_at_unless-valid}

abbrev pub keep_event : Bool → Fields → List Fields → List Fields
keep_event true fs es = es
keep_event false fs es = fs ∷ es

abbrev pub gather_line : List Fields → Line → List Fields
gather_line es (object_line fs) = keep_event (is_metadata fs) fs es
gather_line es _ = es

abbrev pub gather : List Fields → List Line → List Fields
gather es [] = es
gather es (l ∷ ls) = gather (gather_line es l) ls

-- The event records of a file, the newest first.
abbrev pub events : List Line → List Fields
events ls = gather [] ls

-- An event record with the given index and hash: the hash that it stores is the hash of the rest of it.
pub record Link (p : Platform) (e : Fields) (n : ℕ) (h : Text) : Type 0 where
  pub hashes_to : recomputed_hash p e ≡ ok h
  pub stores : text_of (get_field (text "hash") e) ≡ h
  pub indexed : is_integer (get_field (text "index") e) (pos n) ≡ true

-- A hash chain from the genesis hash to the given one: each record names the hash of the one before it.
abbrev pub Chained : Platform → List Fields → Text → Type 0
Chained p [] h = h ≡ genesis_hash
Chained p (e ∷ es) h =
    Link p e (length es) h × Chained p es (text_of (get_field (text "prev_hash") e))

-- What the loop knows of the events that it has read.
pub record Seen (p : Platform) (g : Progress) (es : List Fields) : Type 0 where
  pub chain : Chained p es g.prev_hash
  pub count : length es ≡ g.report.event_count
  pub tail : (x : Text) → g.last_hash ≡ some x → x ≡ g.prev_hash

is_text_sound : (o : Option Value) (t : Text) → is_text o t ≡ true → text_of o ≡ t
is_text_sound (some (scalar (str s))) t h = text_eq_sound s t h
is_text_sound _ t h = ground arith

-- The three tests of an event record.
verify_event_record-valid :
    (p : Platform) (fs : Fields) (n : ℕ) (prev : Text) (r s : VerificationReport)
    → verify_event_record p fs n prev r ≡ ok s
    → s.valid ≡ true
    → Link p fs n (text_of (get_field (text "hash") fs))
      × (text_of (get_field (text "prev_hash") fs) ≡ prev)
      × (s ≡ r)
unfolding verify_event_record
verify_event_record-valid p fs n prev r s h valid =
    let (x, e, h1) = >>=-eq-ok (recomputed_hash p fs) _ h in
    let has = get_field (text "hash") fs in
    let had = get_field (text "prev_hash") fs in
    let idx = get_field (text "index") fs in
    let r1 =
      fault_at_unless (is_integer idx (pos n)) (value_or idx (int_value (pos n))) index_mismatch
        r in
    let r2 = fault_at_unless (is_text had prev) (int_value (pos n)) prev_hash_mismatch r1 in
    let r3 = fault_at_unless (is_text has x) (int_value (pos n)) hash_mismatch r2 in
    let s3 : r3 ≡ s = ok-injective h1 in
    let (t3, e3) = fault_at_unless-valid _ _ hash_mismatch r2 (ap (λ a. a.valid) s3 ∙ valid) in
    let (t2, e2) =
      fault_at_unless-valid _ _ prev_hash_mismatch r1 (ap (λ a. a.valid) (sym e3 ∙ s3) ∙ valid) in
    let (t1, e1) =
      fault_at_unless-valid _ _ index_mismatch r
        (ap (λ a. a.valid) (sym e2 ∙ sym e3 ∙ s3) ∙ valid) in
    let own = is_text_sound has x t3 in
    (
      record { hashes_to = rw own e; stores = refl; indexed = t1 },
      is_text_sound had prev t2,
      sym s3 ∙ e3 ∙ e2 ∙ e1,
    )

-- A digest is not printed as the empty text.
abbrev pub DigestsShow : Platform → Type 0
DigestsShow p = (m : Bytes) → is_empty (p.sha256_hex m) ≡ false

or_previous-digest :
    (p : Platform)
    → DigestsShow p
    → (fs : Fields) (h prev : Text) → recomputed_hash p fs ≡ ok h
    → or_previous h prev ≡ h
unfolding recomputed_hash
or_previous-digest p shows fs h prev e =
    let (m, d, e1) = >>=-eq-ok (audit_json p (obj (remove_field (text "hash") fs))) _ e in
    subst (λ x. or_previous x prev ≡ x) (ok-injective e1) (some_text (p.sha256_hex m) (shows m))
  where
    some_text : (s : Text) → is_empty s ≡ false → or_previous s prev ≡ s
    some_text [] h = cc
    some_text (c ∷ s) h = refl

pub event-Seen :
    (p : Platform)
    → DigestsShow p
    → (g h : Progress) (fs : Fields) (es : List Fields) → verify_event p g fs ≡ ok h
    → h.report.valid ≡ true
    → (g.report.valid ≡ true) × (Seen p g es → Seen p h (fs ∷ es))
event-Seen p shows g h fs es e valid =
    let stored = text_of (get_field (text "hash") fs) in
    let (r, d, e1) =
      >>=-eq-ok (verify_event_record p fs g.report.event_count g.prev_hash g.report)
        (λ r. ok (after_event g stored r)) e in
    let same : after_event g stored r ≡ h = ok-injective e1 in
    let (link, prev, kept) =
      verify_event_record-valid p fs g.report.event_count g.prev_hash g.report r d
        (ap (λ x. x.report.valid) same ∙ valid) in
    let keeps : or_previous stored g.prev_hash ≡ stored =
      or_previous-digest p shows fs stored g.prev_hash link.hashes_to in
    (
      ap (λ x. x.valid) (sym kept) ∙ ap (λ x. x.report.valid) same ∙ valid,
      λ seen.
          subst (λ x. Seen p x (fs ∷ es)) same
            record {
              chain = rw keeps (
                subst (λ n. Link p fs n stored) (sym seen.count) link,
                subst (Chained p es) (sym prev) seen.chain,
              );
              count = ap suc seen.count ∙ ap (λ x. suc x.event_count) (sym kept);
              tail = λ x q. let q1 : stored ≡ x = cc in sym q1 ∙ sym keeps;
            },
    )
