-- ===== src/Ledger/InStep.antt =====
-- The ledger and its file: what is registered is what is read back.
use mathlib.Core.Path.{subst}
use raucle.Prelude.{
  ℕ, ◌≡◌, refl, sym, ap, ◌∙◌, Bool, true, false, Option, none, some, List, [], ◌∷◌, ◌++◌,
  if◌then◌else◌, or_default, ==_refl,
}
use raucle.Text.{Text, is_empty}
use raucle.Platform.{Platform}
use raucle.Result.{ok, err, >>=-eq-ok, ok-injective, hold_uncovered}
use raucle.Json.{Fields}
use raucle.Token.{Capability}
use raucle.Ledger.Defs.{
  Row, Marker, LedgerLine, delegation, Disk, DelegationLedger, add_row, no_rows, load_line,
  load_lines, load, file_time, same_time, ensure_loaded, open_ledger,
}
use raucle.Ledger.Holds.{surface, revocation, revoke_on, propagate, cover}
use raucle.Ledger.Register.{row_hash, Registered, settle_row, register}
use raucle.Ledger.Covered.{register-Registration}

load_lines-append :
    (l m : DelegationLedger) (xs ys : List LedgerLine)
    → load_lines l xs ≡ ok m
    → load_lines l (xs ++ ys) ≡ load_lines m ys
unfolding load_lines
load_lines-append l m [] ys h = ap (λ x. load_lines x ys) (ok-injective h)
load_lines-append l m (x ∷ xs) ys h =
    let (k, e, h1) = >>=-eq-ok (load_line l x) (λ y. load_lines y xs) h in
    rw e (load_lines-append k m xs ys h1)

-- The ledger holds what its file holds, as of the file's modification time.
pub record InStep (l : DelegationLedger) (d : Disk) : Type 0 where
  pub contents : load_lines no_rows (or_default d.rows []) ≡ ok (record l { loaded_at = none })
  pub time : l.loaded_at ≡ file_time d.rows d.mtime

same_time_refl : (o : Option ℕ) → same_time o o ≡ true
same_time_refl none = refl
same_time_refl (some n) = ==_refl n

InStep-loaded : (l : DelegationLedger) (d : Disk) → InStep l d → ensure_loaded l d ≡ ok l
unfolding ensure_loaded
InStep-loaded l d i = rw (i.time, same_time_refl (file_time d.rows d.mtime)) refl

propagate-rows :
    (d e : Disk) (t : Fields) (m : Marker) (stamp : Text)
    → propagate d t m stamp ≡ ok e
    → e.rows ≡ d.rows
unfolding propagate
propagate-rows d e t m stamp h = by_tests (is_empty (surface m)) (d.writable (surface m)) h
  where
    by_tests :
        (a b : Bool)
        → (if a
            then err hold_uncovered
            else if b
            then ok (revoke_on d (surface m) (revocation t m stamp))
            else err hold_uncovered)
          ≡ ok e
        → e.rows ≡ d.rows
    by_tests true b h = cc
    by_tests false false h = cc
    by_tests false true h = ap (λ x. x.rows) (sym (ok-injective h))

cover-rows :
    (d e : Disk) (t : Fields) (stamp : Text) (o : Option Marker)
    → cover d t stamp o ≡ ok e
    → e.rows ≡ d.rows
cover-rows d e t stamp none h = ap (λ x. x.rows) (sym (ok-injective h))
cover-rows d e t stamp (some m) h = propagate-rows d e t m stamp h

append-contents :
    (l : DelegationLedger) (xs : List LedgerLine) (r : Row)
    → load_lines no_rows xs ≡ ok (record l { loaded_at = none })
    → load_lines no_rows (xs ++ delegation r ∷ []) ≡ ok (add_row (record l { loaded_at = none }) r)
unfolding load_lines
append-contents l xs r h =
    load_lines-append no_rows (record l { loaded_at = none }) xs (delegation r ∷ []) h

-- A ledger that is in step with its file is in step after a registration, and a second ledger that opens
-- the file then has the same rows, the same holds and the same time.
pub register-InStep :
    (p : Platform) (l : DelegationLedger) (d : Disk) (now : ℕ) (stamp : Text) (key : Option Text)
    (agent : Text) (c : Capability) (s : Registered)
    → InStep l d
    → register p l d now stamp key agent c ≡ ok s
    → InStep s.ledger s.disk × (open_ledger s.disk ≡ ok s.ledger)
unfolding open_ledger load
register-InStep p l d now stamp key agent c s i h =
    let g = register-Registration p l d now stamp key agent c s h in
    let same : g.loaded ≡ l = ok-injective (sym g.fresh ∙ InStep-loaded l d i) in
    let kept : g.covered.rows ≡ d.rows = cover-rows d g.covered g.token stamp _ g.covers in
    let row : Row = record {
      token = g.token;
      delegated_to_agent = agent;
      record_hash = row_hash p g.token agent;
    } in
    let done : Registered = settle_row (g.loaded, g.covered) now row in
    let before : load_lines no_rows (or_default g.covered.rows [])
        ≡ ok (record g.loaded { loaded_at = none }) =
      rw (kept, same) i.contents in
    let after : load_lines no_rows (or_default g.covered.rows [] ++ delegation row ∷ [])
        ≡ ok (record done.ledger { loaded_at = none }) =
      append-contents g.loaded (or_default g.covered.rows []) row before in
    let step : InStep done.ledger done.disk = record { contents = after; time = refl } in
    let opened : open_ledger done.disk ≡ ok done.ledger = rw after refl in
    subst (λ x. InStep x.ledger x.disk × (open_ledger x.disk ≡ ok x.ledger)) (sym g.result)
      (step, opened)
