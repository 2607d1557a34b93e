-- ===== src/Transparency/Written.antt =====
-- The head of a file that a `HashChainSink` wrote is the tail of the sink.
use mathlib.Core.Path.{subst}
use raucle.Prelude.{ℕ, zero, suc, ◌≡◌, refl, sym, Option, none, some, List, [], ◌∷◌, ◌++◌}
use raucle.Prelude.Int.{pos}
use raucle.Text.{Text, text_eq, text_eq_refl}
use raucle.Json.{Fields, obj, get_field}
use raucle.Json.Objects.{object, remove_field, str_value}
use raucle.Json.Portable.{audit_json}
use raucle.Platform.{Platform, Bytes}
use raucle.Result.{ok, >>=-eq-ok, ok-injective}
use raucle.Audit.Sink.{
  Signer, Sink, Line, object_line, header_line, empty_sink, event_body, event_record,
  checkpoint_record, write_line,
}
use raucle.Audit.Records.{recomputed_hash}
use raucle.Audit.Life.{Written, Written-preserves, header_line-signed}
use raucle.Audit.Resume.{signed_header-is_metadata}
use raucle.Transparency.Head.{Scan, nothing_scanned, scan_line, scan_lines, compute_chain_head}

-- What the scan of the sink's file ends with.
abbrev tail_scan : ℕ → Text → Scan
tail_scan zero h = nothing_scanned
tail_scan (suc n) h = record { head_hash = some h; head_index = pos n }

abbrev Scans : Platform → Sink → Type 0
Scans p s = scan_lines p nothing_scanned s.file ≡ ok (tail_scan s.next_index s.prev_hash)

scan_lines-line :
    (p : Platform) (s t u : Scan) (ls : List Line) (l : Line)
    → scan_lines p s ls ≡ ok t
    → scan_line p t l ≡ ok u
    → scan_lines p s (ls ++ l ∷ []) ≡ ok u
unfolding scan_lines
scan_lines-line p s t u [] l h e = rw (ok-injective h, e) refl
scan_lines-line p s t u (x ∷ ls) l h e =
    let (m, d, h1) = >>=-eq-ok (scan_line p s x) (λ y. scan_lines p y ls) h in
    rw d (scan_lines-line p m t u ls l h1 e)

header-Scans :
    (p : Platform) (k : Option Signer) (n : ℕ) (stamp : Text) (fs : Fields)
    → header_line p k stamp ≡ ok fs
    → Scans p (write_line (empty_sink k n []) fs)
unfolding scan_lines scan_line get_field text_eq
header-Scans p none n stamp fs h =
    subst (λ x. Scans p (write_line (empty_sink none n []) x)) (ok-injective h) refl
header-Scans p (some k) n stamp fs h =
    let (m, e, same) = header_line-signed p k stamp fs h in
    subst (λ x. Scans p (write_line (empty_sink (some k) n []) x)) same
      (rw (signed_header-is_metadata p k stamp m (str_value (p.b64_std (k.sign m))) k.hybrid) refl)

event-scanned :
    (p : Platform) (s : Scan) (n : ℕ) (stamp prev : Text) (event : Fields) (m : Bytes)
    → audit_json p (obj (object (event_body n stamp prev event))) ≡ ok m
    → scan_line p s (object_line (event_record n stamp prev event (p.sha256_hex m)))
      ≡ ok (record { head_hash = some (p.sha256_hex m); head_index = pos n })
unfolding scan_line recomputed_hash get_field remove_field text_eq
event-scanned p s n stamp prev event m e = rw (e, text_eq_refl (p.sha256_hex m)) refl

checkpoint-scanned :
    (p : Platform) (s : Scan) (k : Signer) (n : ℕ) (root stamp : Text) (m : Bytes)
    → scan_line p s (object_line (checkpoint_record p k n root stamp m)) ≡ ok s
unfolding scan_line get_field text_eq
checkpoint-scanned p s k n root stamp m = refl

-- The head that is computed from a file that `HashChainSink` wrote, after any appends and checkpoints that
-- returned and at least one event, has the index of the last event and the tail hash of the sink.
pub compute_chain_head-Written :
    (p : Platform) (k : Option Signer) (n m : ℕ) (s : Sink)
    → Written p k n s
    → s.next_index ≡ suc m
    → compute_chain_head p s.file ≡ ok (record { index = pos m; hash = s.prev_hash })
unfolding compute_chain_head
compute_chain_head-Written p k n m s w e =
    let scans : Scans p s =
      Written-preserves p k n (Scans p) (header-Scans p k n)
        (λ u at event b d h.
          scan_lines-line p nothing_scanned (tail_scan u.next_index u.prev_hash) _ u.file _ h (
            event-scanned p (tail_scan u.next_index u.prev_hash) u.next_index at u.prev_hash event b
              d))
        (λ u at c h. subst (Scans p) (sym (c.1).written) (
          scan_lines-line p nothing_scanned (tail_scan u.next_index u.prev_hash) _ u.file _ h (
            checkpoint-scanned p (tail_scan u.next_index u.prev_hash) (c.1).by_key u.next_index
              (c.1).root at (c.1).signed_bytes)))
        w in
    rw (scans, e) refl
