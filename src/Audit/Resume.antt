-- ===== src/Audit/Resume.antt =====
-- A restart: a sink that resumes the file of another one is in the other one's state.
use mathlib.Core.Path.{subst}
use raucle.Prelude.{
  ℕ, ◌≡◌, refl, sym, ap, ◌∙◌, Bool, true, false, Option, none, some, List, [], ◌∷◌, ◌++◌,
}
use raucle.Text.{Text, text, text_eq}
use raucle.Json.{Value, Fields, get_field}
use raucle.Json.Objects.{object, str_value}
use raucle.Platform.{Platform, Bytes}
use raucle.Result.{ok, >>=-eq-ok, ok-injective}
use raucle.Audit.Sink.{
  Signer, Sink, Line, blank, bad_json, object_line, other_json, duplicate_keys, empty_sink,
  header_line, signed_body, second_signature, PqSigner, new_sink, resume_line, resume_lines,
  resume_object, is_metadata, chained, checkpoint_record, write_line,
}
use raucle.Audit.Life.{Written, Written-preserves, header_line-signed}

-- The same sink on another file.
abbrev on_file : List Line → Sink → Sink
on_file f s = record s { file = f }

resume_object-file :
    (f : List Line) (s : Sink) (fs : Fields) (b : Bool)
    → resume_object (on_file f s) fs b ≡ on_file f (resume_object s fs b)
resume_object-file f s fs true = refl
resume_object-file f s fs false = refl

-- The loop does not look at the file of the sink.
resume_lines-file :
    (f : List Line) (s t : Sink) (ls : List Line)
    → resume_lines s ls ≡ ok t
    → resume_lines (on_file f s) ls ≡ ok (on_file f t)
unfolding resume_lines
resume_lines-file f s t [] h = ap (λ x. ok (on_file f x)) (ok-injective h)
resume_lines-file f s t (blank ∷ ls) h = resume_lines-file f s t ls h
resume_lines-file f s t (bad_json ∷ ls) h = resume_lines-file f s t ls h
resume_lines-file f s t (object_line fs ∷ ls) h =
    rw (resume_object-file f s fs (is_metadata fs))
      (resume_lines-file f (resume_object s fs (is_metadata fs)) t ls h)
resume_lines-file f s t (other_json ∷ ls) h = cc
resume_lines-file f s t (duplicate_keys ∷ ls) h = cc

resume_lines-append :
    (s t : Sink) (ls ks : List Line)
    → resume_lines s ls ≡ ok t
    → resume_lines s (ls ++ ks) ≡ resume_lines t ks
unfolding resume_lines
resume_lines-append s t [] ks h = ap (λ x. resume_lines x ks) (ok-injective h)
resume_lines-append s t (l ∷ ls) ks h =
    let (u, e, h1) = >>=-eq-ok (resume_line s l) (λ x. resume_lines x ls) h in
    rw e (resume_lines-append u t ls ks h1)

-- The state is the one that its file leads to.
abbrev Resumes : Option Signer → ℕ → Sink → Type 0
Resumes k n s = resume_lines (empty_sink k n s.file) s.file ≡ ok s

-- A line more, in the file and in the state.
Resumes-line :
    (k : Option Signer) (n : ℕ) (s : Sink) (fs : Fields) (t : Sink)
    → Resumes k n s
    → resume_object (on_file (s.file ++ object_line fs ∷ []) s) fs (is_metadata fs) ≡ t
    → t.file ≡ s.file ++ object_line fs ∷ []
    → Resumes k n t
unfolding resume_lines
Resumes-line k n s fs t h e d =
    let f = s.file ++ object_line fs ∷ [] in
    let first : resume_lines (empty_sink k n f) s.file ≡ ok (on_file f s) =
      resume_lines-file f (empty_sink k n s.file) s s.file h in
    let all_of : resume_lines (empty_sink k n f) f ≡ ok t =
      resume_lines-append (empty_sink k n f) (on_file f s) s.file (object_line fs ∷ []) first
      ∙ ap ok e in
    subst (λ x. resume_lines (empty_sink k n x) x ≡ ok t) (sym d) all_of

pub signed_header-is_metadata :
    (p : Platform) (k : Signer) (stamp : Text) (m : Bytes) (v : Value) (o : Option PqSigner)
    → is_metadata (object (signed_body k stamp ++ (text "signature", v) ∷ second_signature p m o))
      ≡ true
unfolding get_field text_eq
signed_header-is_metadata p k stamp m v none = refl
signed_header-is_metadata p k stamp m v (some q) = refl

header-Resumes :
    (p : Platform) (k : Option Signer) (n : ℕ) (stamp : Text) (fs : Fields)
    → header_line p k stamp ≡ ok fs
    → Resumes k n (write_line (empty_sink k n []) fs)
unfolding resume_lines get_field text_eq
header-Resumes p none n stamp fs h =
    subst (λ x. Resumes none n (write_line (empty_sink none n []) x)) (ok-injective h) refl
header-Resumes p (some k) n stamp fs h =
    let (m, e, same) = header_line-signed p k stamp fs h in
    subst (λ x. Resumes (some k) n (write_line (empty_sink (some k) n []) x)) same
      (rw (signed_header-is_metadata p k stamp m (str_value (p.b64_std (k.sign m))) k.hybrid) refl)

-- A sink that is opened on the file of another one takes over its tail, its index and its leaves: what
-- `__init__` reads back is the state that the other one had, after any appends and checkpoints that
-- returned.
pub resume-Written :
    (p : Platform) (k : Option Signer) (n : ℕ) (s : Sink) (stamp : Text)
    → Written p k n s
    → new_sink p k n stamp (some s.file) ≡ ok s
unfolding new_sink resume_lines get_field text_eq
resume-Written p k n s stamp w =
    Written-preserves p k n (Resumes k n) (header-Resumes p k n)
      (λ u at event m e h. Resumes-line k n u _ (chained u at event (p.sha256_hex m)) h refl refl)
      (λ u at c h. subst (Resumes k n) (sym (c.1).written) (
        Resumes-line k n u
          (checkpoint_record p (c.1).by_key u.next_index (c.1).root at (c.1).signed_bytes) _ h refl
          refl))
      w
