-- ===== src/Audit/Honest.antt =====
-- A signed chain as a `HashChainSink` wrote it, read by `verify_chain`.
use raucle.Prelude.{
  ℕ, zero, suc, ◌≡◌, refl, sym, ◌∙◌, ◌⊎◌, inl, inr, true, false, Option, none, some, List, [],
  arith, ltb,
}
use raucle.Text.{Text}
use raucle.Platform.{Platform}
use raucle.Result.{ok}
use raucle.Audit.Sink.{Signer, Sink, Line, close}
use raucle.Audit.Report.{VerificationReport, AuditVerifier, signed}
use raucle.Audit.Verify.{
  Progress, initial_progress, verify_lines, verify_chain, verify_end, uncovered,
}
use raucle.Audit.Life.{Written, Checkpoints, emit_checkpoint-cases}
use raucle.Audit.Signed.{Fits}
use raucle.Audit.Agrees.{Agrees, signed_at, checkpoint-read, Written-Agrees}

-- What the report on a chain of `n` events says.
pub record Clean (r : VerificationReport) (n : ℕ) : Type 0 where
  pub is_valid : r.valid ≡ true
  pub counts : r.event_count ≡ n
  pub as_signed : r.signed_mode ≡ signed

-- The end of the check adds no fault if the last event is attested.
end-Clean :
    (v : AuditVerifier) (g : Progress) (n : ℕ)
    → Clean g.report n
    → uncovered g.report.event_count g.attested ≡ false
    → Clean (verify_end v g v.public_key) n
end-Clean v g n c h = by_key v.public_key
  where
    by_key : (o : Option Text) → Clean (verify_end v g o) n
    by_key none = c
    by_key (some pem) = record {
      is_valid = rw (c.as_signed, h) c.is_valid;
      counts = rw (c.as_signed, h) c.counts;
      as_signed = rw (c.as_signed, h) refl;
    }

ltb-irreflexive : (n : ℕ) → ltb n n ≡ false
ltb-irreflexive n = ground arith

uncovered-own : (n : ℕ) → uncovered n (some n) ≡ false
uncovered-own zero = refl
uncovered-own (suc n) = ltb-irreflexive (suc n)

read-Clean :
    (p : Platform) (v : AuditVerifier) (ls : List Line) (g : Progress) (n : ℕ)
    → verify_lines p v initial_progress ls ≡ ok g
    → Clean g.report n
    → uncovered g.report.event_count g.attested ≡ false
    → (r : VerificationReport) × (verify_chain p v ls none ≡ ok r) × Clean r n
unfolding verify_chain
read-Clean p v ls g n e c h = (verify_end v g v.public_key, rw e refl, end-Clean v g n c h)

-- A signed chain that was written from its first line on, and closed, verifies: the verifier that holds
-- the signer's keys, the second one of a hybrid signer too, returns a report with no fault, which counts
-- the events that were appended. The signature schemes accept what the keys sign, and base64 can be undone.
pub close-verifies :
    (p : Platform) (k : Signer) (n : ℕ) (v : AuditVerifier) (f : Fits p k v) (s t : Sink)
    (stamp : Text)
    → Written p (some k) n s
    → close p s stamp ≡ ok t
    → (r : VerificationReport) × (verify_chain p v t.file none ≡ ok r) × Clean r s.next_index
unfolding close
close-verifies p k n v f s t stamp w h = by_case (emit_checkpoint-cases p s t stamp h)
  where
    a : Agrees p k v s
    a = Written-Agrees p k n v f s w

    clean : Clean a.progress.report s.next_index
    clean = record { is_valid = a.no_fault; counts = a.same_count; as_signed = a.is_signed_mode }

    no_events : s.leaf_hashes ≡ [] → a.progress.report.event_count ≡ 0
    no_events e = rw (a.same_count, ← a.sized, e) refl

    by_case :
        ((t ≡ s) × ((s.signer ≡ none) ⊎ (s.leaf_hashes ≡ []))) ⊎ Checkpoints p s stamp t
        → (r : VerificationReport) × (verify_chain p v t.file none ≡ ok r) × Clean r s.next_index
    by_case (inl (same, inl unsigned_sink)) =
        let e : none ≡ some k = sym unsigned_sink ∙ a.owner in cc
    by_case (inl (same, inr empty)) =
        rw same
          (read-Clean p v s.file a.progress s.next_index a.read clean (rw (no_events empty) refl))
    by_case (inr c) =
        read-Clean p v t.file (signed_at a.progress) s.next_index
          (checkpoint-read p k v f s stamp t c a)
          (record { is_valid = a.no_fault; counts = a.same_count; as_signed = a.is_signed_mode })
          (uncovered-own a.progress.report.event_count)
