-- ===== src/Audit/Life.antt =====
-- The life of a `HashChainSink` that began with a new file: every state that its methods lead to, and the
-- lines that they write.
use mathlib.Core.Path.{subst}
use raucle.Prelude.{
  ℕ, ◌≡◌, refl, sym, ◌⊎◌, inl, inr, Bool, true, false, Option, none, some, List, [], ◌∷◌, ◌++◌,
}
use raucle.Text.{Text}
use raucle.Json.{Fields, obj}
use raucle.Json.Objects.{object}
use raucle.Json.Portable.{audit_json}
use raucle.Platform.{Platform, Bytes}
use raucle.Result.{ok, >>=-eq-ok, ok-injective}
use raucle.Audit.Merkle.{merkle_root}
use raucle.Audit.Sink.{
  Signer, Sink, empty_sink, header_line, signed_body, signature_fields, write_header, new_sink,
  append, emit_checkpoint, event_body, chained, is_due, checkpoint_when, checkpoint_if,
  checkpoint_by, checkpoint_body, checkpoint_record, write_line,
}

-- `close` is the same call as `emit_checkpoint`.
pub data Written (p : Platform) (k : Option Signer) (n : ℕ) : Sink → Type 0 where
  opened : (stamp : Text) {s : Sink} → new_sink p k n stamp none ≡ ok s → Written p k n s
  appended :
      {s t : Sink} (stamp later : Text) (event : Fields)
      → Written p k n s
      → append p s stamp later event ≡ ok t
      → Written p k n t
  checkpointed :
      {s t : Sink} (stamp : Text)
      → Written p k n s
      → emit_checkpoint p s stamp ≡ ok t
      → Written p k n t

-- The header of a signed chain.
pub header_line-signed :
    (p : Platform) (k : Signer) (stamp : Text) (fs : Fields)
    → header_line p (some k) stamp ≡ ok fs
    → (m : Bytes) × (audit_json p (obj (object (signed_body k stamp))) ≡ ok m)
      × (object (signed_body k stamp ++ signature_fields p k m) ≡ fs)
header_line-signed p k stamp fs h =
    let (m, e, h1) =
      >>=-eq-ok (audit_json p (obj (object (signed_body k stamp))))
        (λ m. ok (object (signed_body k stamp ++ signature_fields p k m))) h in
    (m, e, ok-injective h1)

-- A checkpoint line was written.
pub record Checkpoints (p : Platform) (s : Sink) (stamp : Text) (t : Sink) : Type 0 where
  pub by_key : Signer
  pub by_signer : s.signer ≡ some by_key
  pub root : Text
  pub root_of_leaves : merkle_root p s.leaf_hashes ≡ ok root
  pub signed_bytes : Bytes
  pub signed_of :
      audit_json p (obj (object (checkpoint_body s.next_index root by_key.key_id)))
      ≡ ok signed_bytes
  pub written : t ≡ write_line s (checkpoint_record p by_key s.next_index root stamp signed_bytes)

checkpoint_by-Checkpoints :
    (p : Platform) (s t : Sink) (stamp : Text) (k : Signer)
    → s.signer ≡ some k
    → checkpoint_by p s k stamp ≡ ok t
    → Checkpoints p s stamp t
checkpoint_by-Checkpoints p s t stamp k e h =
    let (root, a, h1) = >>=-eq-ok (merkle_root p s.leaf_hashes) _ h in
    let (m, b, h2) =
      >>=-eq-ok (audit_json p (obj (object (checkpoint_body s.next_index root k.key_id)))) _ h1 in
    record {
      by_key = k;
      by_signer = e;
      root = root;
      root_of_leaves = a;
      signed_bytes = m;
      signed_of = b;
      written = sym (ok-injective h2);
    }

-- A checkpoint is written if there is a signer and an event, and nothing is otherwise.
pub emit_checkpoint-cases :
    (p : Platform) (s t : Sink) (stamp : Text)
    → emit_checkpoint p s stamp ≡ ok t
    → ((t ≡ s) × ((s.signer ≡ none) ⊎ (s.leaf_hashes ≡ []))) ⊎ Checkpoints p s stamp t
unfolding emit_checkpoint
emit_checkpoint-cases p s t stamp h = by_signer s.signer s.leaf_hashes refl refl h
  where
    by_signer :
        (o : Option Signer) (hs : List Text)
        → s.signer ≡ o
        → s.leaf_hashes ≡ hs
        → checkpoint_if p s stamp o hs ≡ ok t
        → ((t ≡ s) × ((s.signer ≡ none) ⊎ (s.leaf_hashes ≡ []))) ⊎ Checkpoints p s stamp t
    by_signer none hs e d h = inl (sym (ok-injective h), inl e)
    by_signer (some k) [] e d h = inl (sym (ok-injective h), inr d)
    by_signer (some k) (x ∷ hs) e d h = inr (checkpoint_by-Checkpoints p s t stamp k e h)

-- What holds after the header, and after each line that is written, holds in every state.
module _ (p : Platform) (k : Option Signer) (n : ℕ) (P : Sink → Type 0)
    (after_header : (stamp : Text) (fs : Fields)
      → header_line p k stamp ≡ ok fs
      → P (write_line (empty_sink k n []) fs))
    (after_event : (s : Sink) (stamp : Text) (event : Fields) (m : Bytes)
      → audit_json p (obj (object (event_body s.next_index stamp s.prev_hash event))) ≡ ok m
      → P s
      → P (chained s stamp event (p.sha256_hex m)))
    (after_checkpoint : (s : Sink) (stamp : Text) (c : (t : Sink) × Checkpoints p s stamp t)
      → P s
      → P (c.0)) where
  emit-preserves : (s t : Sink) (stamp : Text) → emit_checkpoint p s stamp ≡ ok t → P s → P t
  emit-preserves s t stamp h q = by_case (emit_checkpoint-cases p s t stamp h)
    where
      by_case :
          ((t ≡ s) × ((s.signer ≡ none) ⊎ (s.leaf_hashes ≡ []))) ⊎ Checkpoints p s stamp t → P t
      by_case (inl same) = subst P (sym same.0) q
      by_case (inr c) = after_checkpoint s stamp (t, c) q

  append-preserves :
      (s t : Sink) (stamp later : Text) (event : Fields)
      → append p s stamp later event ≡ ok t
      → P s
      → P t
  unfolding append
  append-preserves s t stamp later event h q =
      let (m, e, h1) =
        >>=-eq-ok (audit_json p (obj (object (event_body s.next_index stamp s.prev_hash event)))) _
          h in
      let u = chained s stamp event (p.sha256_hex m) in
      due u (is_due u.checkpoint_every u.next_index) (after_event s stamp event m e q) h1
    where
      due : (u : Sink) (b : Bool) → P u → checkpoint_when p u later b ≡ ok t → P t
      due u true q h = emit-preserves u t later h q
      due u false q h = subst P (ok-injective h) q

  pub Written-preserves : {s : Sink} → Written p k n s → P s
  unfolding new_sink write_header
  Written-preserves (opened stamp h) =
      let (fs, e, h1) = >>=-eq-ok (header_line p k stamp) _ h in
      subst P (ok-injective h1) (after_header stamp fs e)
  Written-preserves (appended stamp later event w h) =
      append-preserves _ _ stamp later event h (Written-preserves w)
  Written-preserves (checkpointed stamp w h) = emit-preserves _ _ stamp h (Written-preserves w)
