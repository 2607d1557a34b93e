-- ===== src/Tests/LedgerWitnesses.antt =====
-- The theorems about the delegation ledger, at a token that is registered for a held agent.
use mathlib.Core.Path.{subst}
use raucle.Prelude.{
  ℕ, ◌≡◌, refl, sym, ◌∙◌, inl, inr, ◌↔◌, ◌<◌, true, false, none, some, List, [], ◌∷◌, In, arith,
  if◌then◌else◌,
}
use raucle.Prelude.Sort.{sort}
use raucle.Text.{Text, text, text_eq, no_surrogates, utf16_key, utf16_le, is_empty}
use raucle.Json.Objects.{object, str_value}
use raucle.Json.Canon.{canonical_json, reorder_keys, reject_floats}
use raucle.Dict.{Dict, get, put}
use raucle.Result.{Result, ok, err}
use raucle.Constraints.{normalise_constraints}
use raucle.Token.{body, signed_material, constraints_value}
use raucle.Gate.{cited, verify_signature}
use raucle.Json.{Fields, end, get_field}
use raucle.Wire.{to_dict, dict_token_id, dict_parent_id, from_dict}
use raucle.Ledger.Defs.{
  Row, Marker, containment_hold_active, Disk, DelegationLedger, control, no_rows, load_lines,
  ensure_loaded, open_ledger,
}
use raucle.Ledger.Holds.{
  holds_after, active_holds, chain_from, chain_ids, hits, hold_on, hold_check, propagate, surface,
}
use raucle.Ledger.Register.{row_hash, Registered, register, resolve, parsed}
use raucle.Ledger.Subtree.{walk_down, subtree}
use raucle.Ledger.Reach.{Child, Under, subtree_iff, subtree-returns, subtree-endless}
use raucle.Ledger.Chains.{nearest, chain_ids-Above}
use raucle.Ledger.Covered.{Revoked, register-covers, register-resolves}
use raucle.Ledger.InStep.{InStep, register-InStep}
use raucle.Tests.Toy.{toy, dump_value, root_token, child_token}

abbrev hold : Marker
hold = record {
  kind = containment_hold_active;
  scope = text "agent";
  scope_id = text "agent:bob";
  revocations_path = [];
  target_path = text "revoked";
  actor = text "eve";
  receipt_id = text "r-1";
}

abbrev disk : Disk
disk = record {
  rows = some (control hold ∷ []);
  mtime = 1;
  revocations = [];
  writable = λ path. true;
}

-- The ledger on that file.
abbrev ledger : DelegationLedger
ledger = record { records = []; control_rows = hold ∷ []; loaded_at = some 1 }

ledger-InStep : InStep ledger disk
unfolding load_lines
ledger-InStep = record { contents = refl; time = refl }

ledger-fresh : ensure_loaded ledger disk ≡ ok ledger
unfolding ensure_loaded
ledger-fresh = refl

abbrev object_or_none : Result Fields → Fields
object_or_none (ok d) = d
object_or_none (err e) = end

-- The objects of the two tokens.
unfoldable root_object : Fields
unfolding to_dict
root_object = object_or_none (to_dict toy root_token)

unfoldable child_object : Fields
unfolding to_dict
child_object = object_or_none (to_dict toy child_token)

root-written : to_dict toy root_token ≡ ok root_object
unfolding toy root_object to_dict body constraints_value normalise_constraints sort get
root-written = refl

abbrev empty_result : Registered
empty_result = record { record_hash = []; ledger = no_rows; disk = disk }

abbrev registered_of : Result Registered → Registered
registered_of (ok s) = s
registered_of (err e) = empty_result

unfoldable registration : Registered
unfolding register
registration =
    registered_of
      (register toy ledger disk 2 (text "t") (some (text "PEM")) (text "agent:bob") root_token)

registration-run :
    register toy ledger disk 2 (text "t") (some (text "PEM")) (text "agent:bob") root_token
    ≡ ok registration
unfolding toy dump_value registration register to_dict normalise_constraints sort verify_signature
    signed_material body constraints_value canonical_json reorder_keys reject_floats no_surrogates
    utf16_key utf16_le text_eq row_hash hold_check ensure_loaded hold_on active_holds holds_after
    chain_ids chain_from propagate get put get_field
registration-run = refl

register-covers_example :
    (n : Marker) × In n (active_holds ledger)
    × (hits (chain_ids ledger.records root_object) (text "agent:bob") n ≡ true)
    × Revoked registration.disk (surface n) root_token.token_id
unfolding text_eq chain_ids chain_from
register-covers_example =
    register-covers toy ledger ledger disk 2 (text "t") (some (text "PEM")) (text "agent:bob")
      root_token root_object registration hold registration-run ledger-fresh root-written
      (inl (refl, refl, tt)) refl

register-resolves_example :
    ((pem : Text) × (some (text "PEM") ≡ some pem) × (verify_signature toy root_token pem ≡ true))
    × (is_empty root_token.signature ≡ false)
    × (resolve registration.ledger disk root_token.token_id ≡ ok (parsed (from_dict root_object)))
register-resolves_example =
    register-resolves toy ledger disk disk 2 (text "t") (some (text "PEM")) (text "agent:bob")
      root_token root_object registration registration-run root-written

register-InStep_example :
    InStep registration.ledger registration.disk
    × (open_ledger registration.disk ≡ ok registration.ledger)
register-InStep_example =
    register-InStep toy ledger disk 2 (text "t") (some (text "PEM")) (text "agent:bob") root_token
      registration ledger-InStep registration-run

abbrev row_of : Fields → Row
row_of d = record { token = d; delegated_to_agent = []; record_hash = [] }

abbrev family : Dict Row
family =
    (root_token.token_id, row_of root_object) ∷ (child_token.token_id, row_of child_object) ∷ []

family-subtree :
    subtree 2 family root_token.token_id ≡ some (root_token.token_id ∷ child_token.token_id ∷ [])
unfolding toy subtree walk_down text_eq get_field root_object child_object body
    normalise_constraints get sort to_dict
family-subtree = refl

subtree_iff_example :
    In child_token.token_id (root_token.token_id ∷ child_token.token_id ∷ [])
    ↔ Under family root_token.token_id child_token.token_id
subtree_iff_example =
    subtree_iff 2 family root_token.token_id (root_token.token_id ∷ child_token.token_id ∷ [])
      family-subtree child_token.token_id

-- The root stands above the child.
abbrev rank : Text → ℕ
rank i = if text_eq i root_token.token_id then 1 else 0

root-orphan : cited (dict_parent_id root_object) ≡ none
unfolding toy get_field text_eq root_object to_dict body normalise_constraints sort get
root-orphan = refl

child-parent : cited (dict_parent_id child_object) ≡ some root_token.token_id
unfolding toy get_field text_eq child_object to_dict body normalise_constraints sort get
child-parent = refl

family-descends : (i j : Text) → Child family i j → rank j < rank i
unfolding text_eq
family-descends i j (inl (same, e)) = let orphan : none ≡ some i = sym root-orphan ∙ e in cc
family-descends i j (inr (inl (same, e))) =
    let linked : some root_token.token_id ≡ some i = sym child-parent ∙ e in
    let parent : root_token.token_id ≡ i = cc in
    subst (λ x. rank x < rank i) same
      (subst (λ x. rank child_token.token_id < rank x) parent (omega arith))
family-descends i j (inr (inr h)) = absurd h

subtree-returns_example :
    (fuel : ℕ) × (ids : List Text) × (subtree fuel family root_token.token_id ≡ some ids)
subtree-returns_example = subtree-returns family rank family-descends root_token.token_id

-- A row whose token names itself as its parent.
abbrev looped : Dict Row
looped = (text "cap:x", row_of (object ((text "parent_id", str_value (text "cap:x")) ∷ []))) ∷ []

subtree-endless_example : subtree 100 looped (text "cap:x") ≡ none
unfolding get_field text_eq
subtree-endless_example = subtree-endless looped (text "cap:x") (inl (refl, refl)) 100

family-child : get (dict_token_id child_object) family ≡ some (row_of child_object)
unfolding toy get_field text_eq child_object to_dict body normalise_constraints sort get
family-child = refl

child-alone :
    (r : Row)
    → get (dict_token_id child_object) family ≡ some r
    → cited (dict_parent_id r.token) ≡ cited (dict_parent_id child_object)
child-alone r e =
    let found : some (row_of child_object) ≡ some r = sym family-child ∙ e in
    let same : row_of child_object ≡ r = cc in rw (← same) refl

chain_ids-Above_example : In root_token.token_id (chain_ids family child_object)
chain_ids-Above_example =
    chain_ids-Above family child_object child-alone root_token.token_id (nearest child-parent)
