-- ===== src/Audit/Tamper.antt =====
-- Two files that verify against the same expected head.
use mathlib.Core.Path.{subst}
use raucle.Prelude.{
  ℕ, zero, suc, ◌≡◌, refl, sym, ap, ◌∙◌, ◌≢◌, ◌⊎◌, inl, inr, true, false, Option, none, some, List,
  [], ◌∷◌, length, arith, Bool-cases,
}
use raucle.Prelude.Int.{ℤ, eq_ℤ_iff}
use raucle.Text.{Text, text, text_eq, text_eq_sound, text_eq_refl}
use raucle.Json.{obj, Fields, get_field}
use raucle.Json.Objects.{remove_field, text_of}
use raucle.Json.Portable.{encodable, audit_json}
use raucle.Json.Canon.{reorder_keys, reorder_fields}
use raucle.Json.Members.{get-remove_other, text_of-reorder}
use raucle.Platform.{Platform, Bytes}
use raucle.Result.{Result, ok, >>=-eq-ok, ok-injective}
use raucle.Audit.Sink.{Line}
use raucle.Audit.Report.{AuditVerifier, VerificationReport}
use raucle.Audit.Records.{recomputed_hash}
use raucle.Audit.Verify.{Head, verify_chain, last_index, head_hash_ok}
use raucle.Audit.Linked.{events, Chained, DigestsShow}
use raucle.Audit.Reading.{Sound, verify_chain-Sound}

-- The bytes that the hash of a record is taken over.
abbrev pub hashed_bytes : Platform → Fields → Result Bytes
hashed_bytes p e = audit_json p (obj (remove_field (text "hash") e))

abbrev pub Alike : Platform → List Fields → List Fields → Type 0
Alike p [] [] = Unit
Alike p (e ∷ es) (f ∷ fs) = (hashed_bytes p e ≡ hashed_bytes p f) × Alike p es fs
Alike p _ _ = ⊥

-- Two records with different canonical bytes and one digest.
abbrev pub Clash : Platform → Fields → Fields → Type 0
Clash p e f =
    (a : Bytes) × (b : Bytes) × (hashed_bytes p e ≡ ok a)
    × (hashed_bytes p f ≡ ok b)
    × (a ≢ b)
    × (p.sha256_hex a ≡ p.sha256_hex b)

-- Records in one place of the two lists clash.
abbrev pub Collision : Platform → List Fields → List Fields → Type 0
Collision p (e ∷ es) (f ∷ fs) = Clash p e f ⊎ Collision p es fs
Collision p _ _ = ⊥

-- What JSON objects print determines their member `prev_hash`, where it is a text.
abbrev pub PrintsPrevious : Platform → Type 0
PrintsPrevious p =
    (e f : Fields)
    → p.dumps (obj e) ≡ p.dumps (obj f)
    → text_of (get_field (text "prev_hash") e) ≡ text_of (get_field (text "prev_hash") f)

-- The bytes behind the hash of a record.
record Hashed (p : Platform) (e : Fields) (h : Text) : Type 0 where
  bytes : Bytes
  taken : hashed_bytes p e ≡ ok bytes
  printed : p.dumps (obj (reorder_fields (remove_field (text "hash") e))) ≡ bytes
  digest : p.sha256_hex bytes ≡ h

recomputed_hash-Hashed :
    (p : Platform) (e : Fields) (h : Text) → recomputed_hash p e ≡ ok h → Hashed p e h
unfolding recomputed_hash audit_json reorder_keys
recomputed_hash-Hashed p e h q =
    let (m, taken, q1) = >>=-eq-ok (hashed_bytes p e) _ q in
    let (u, fine, printed) = >>=-eq-ok (encodable (obj (remove_field (text "hash") e))) _ taken in
    record { bytes = m; taken = taken; printed = ok-injective printed; digest = ok-injective q1 }

previous_of :
    (e : Fields)
    → text_of (get_field (text "prev_hash") (reorder_fields (remove_field (text "hash") e)))
      ≡ text_of (get_field (text "prev_hash") e)
unfolding text_eq
previous_of e =
    text_of-reorder (text "prev_hash") (remove_field (text "hash") e)
    ∙ ap text_of (get-remove_other (text "prev_hash") (text "hash") e refl)

text_eq-apart : (s t : Text) → text_eq s t ≡ false → s ≢ t
text_eq-apart s t h same =
    let a = text_eq_refl t in
    let b : text_eq t t ≡ false = subst (λ x. text_eq x t ≡ false) same h in cc

-- Two records with one hash.
recomputed_hash-equal :
    (p : Platform)
    → PrintsPrevious p
    → (e f : Fields) (h : Text) → recomputed_hash p e ≡ ok h
    → recomputed_hash p f ≡ ok h
    → ((hashed_bytes p e ≡ hashed_bytes p f)
        × (text_of (get_field (text "prev_hash") f) ≡ text_of (get_field (text "prev_hash") e)))
      ⊎ Clash p e f
recomputed_hash-equal p prints e f h q r =
    let a = recomputed_hash-Hashed p e h q in
    let b = recomputed_hash-Hashed p f h r in
    let clash : p.sha256_hex a.bytes ≡ p.sha256_hex b.bytes = a.digest ∙ sym b.digest in
    elim (Bool-cases (text_eq a.bytes b.bytes)) [
      | inl same ↦
          (let m : a.bytes ≡ b.bytes = text_eq_sound a.bytes b.bytes same in
            inl (
              a.taken ∙ ap ok m ∙ sym b.taken,
              sym (previous_of f) ∙ prints _ _ (b.printed ∙ sym m ∙ sym a.printed) ∙ previous_of e,
            ))
      | inr other ↦
          inr (a.bytes, b.bytes, a.taken, b.taken, text_eq-apart a.bytes b.bytes other, clash)
    ]

Chained-Alike :
    (p : Platform)
    → PrintsPrevious p
    → (es fs : List Fields) (h : Text) → length es ≡ length fs
    → Chained p es h
    → Chained p fs h
    → Alike p es fs ⊎ Collision p es fs
Chained-Alike p prints [] [] h n c d = inl tt
Chained-Alike p prints [] (f ∷ fs) h n c d = omega arith
Chained-Alike p prints (e ∷ es) [] h n c d = omega arith
Chained-Alike p prints (e ∷ es) (f ∷ fs) h n (l, c) (k, d) =
    let m : length es ≡ length fs = omega arith in
    elim (recomputed_hash-equal p prints e f h l.hashes_to k.hashes_to) [
      | inr clash ↦ inr (inl clash)
      | inl (same, prev) ↦ elim (Chained-Alike p prints es fs _ m c (subst (Chained p fs) prev d)) [
        | inl rest ↦ inl (same, rest)
        | inr below ↦ inr (inr below)
      ]
    ]

-- A head that names the index and the hash of the last event.
abbrev pub head_at : ℤ → Text → Option Text → Head
head_at i x root = record { index = some i; hash = some x; exp_root = root }

last_index-injective : (m n : ℕ) → last_index m ≡ last_index n → m ≡ n
last_index-injective zero zero h = refl
last_index-injective zero (suc n) h = cc
last_index-injective (suc m) zero h = cc
last_index-injective (suc m) (suc n) h = let e : m ≡ n = cc in ap suc e

named_hash : (o : Option Text) (x : Text) → head_hash_ok o (some x) ≡ true → o ≡ some x
named_hash none x h = cc
named_hash (some y) x h = ap some (sym (text_eq_sound x y h))

Sound-Chained :
    (p : Platform) (v : AuditVerifier) (ls : List Line) (i : ℤ) (x : Text) (root : Option Text)
    → Sound p v ls (some (head_at i x root))
    → (i ≡ last_index (length (events ls))) × Chained p (events ls) x
Sound-Chained p v ls i x root s =
    let n = s.last.report.event_count in
    let named : i ≡ last_index n =
      (eq_ℤ_iff i (last_index n)).0 (s.index_named (head_at i x root) refl) in
    let tail : x ≡ s.last.prev_hash =
      s.knows.tail x (named_hash s.last.last_hash x (s.hash_named (head_at i x root) refl)) in
    (
      named ∙ ap last_index (sym s.knows.count),
      subst (Chained p (events ls)) (sym tail) s.knows.chain,
    )

-- Two files that `verify_chain` reports as valid against an expected head with the same index and hash hold
-- as many events, and each event record of one has the same canonical bytes as the record in its place
-- in the other, or records in one place have different canonical bytes with the same SHA-256 digest. The
-- verifiers may differ; no digest is printed as the empty text, and the bytes of an object determine its `prev_hash`.
pub verify_chain-tamper_evident :
    (p : Platform) (v w : AuditVerifier) (shows : DigestsShow p) (prints : PrintsPrevious p)
    (ls ks : List Line) (i : ℤ) (x : Text) (root top : Option Text) (r s : VerificationReport)
    → verify_chain p v ls (some (head_at i x root)) ≡ ok r
    → r.valid ≡ true
    → verify_chain p w ks (some (head_at i x top)) ≡ ok s
    → s.valid ≡ true
    → Alike p (events ls) (events ks) ⊎ Collision p (events ls) (events ks)
verify_chain-tamper_evident p v w shows prints ls ks i x root top r s e a f b =
    let (m, c) =
      Sound-Chained p v ls i x root
        (verify_chain-Sound p v shows ls (some (head_at i x root)) r e a) in
    let (n, d) =
      Sound-Chained p w ks i x top
        (verify_chain-Sound p w shows ks (some (head_at i x top)) s f b) in
    let same = last_index-injective (length (events ls)) (length (events ks)) (sym m ∙ n) in
    Chained-Alike p prints (events ls) (events ks) x same c d
