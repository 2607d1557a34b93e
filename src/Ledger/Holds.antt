-- ===== src/Ledger/Holds.antt =====
-- Containment holds: which are in force, whom they hit, and the revocation of what enters a held scope.
use raucle.Prelude.{
  ℕ, zero, suc, Bool, true, false, not, ◌&&◌, ◌||◌, Option, none, some, List, [], ◌∷◌, ◌++◌,
  keep_if, length, or_default, if◌then◌else◌,
}
use raucle.Text.{Text, text, text_eq, mem_text, is_empty}
use raucle.Dict.{Dict, get, put}
use raucle.Result.{Result, ok, err, ◌>>=◌, hold_uncovered}
use raucle.Json.{Fields}
use raucle.Wire.{dict_token_id, dict_parent_id}
use raucle.Gate.{cited}
use raucle.Ledger.Defs.{
  Row, MarkerKind, containment_hold_active, containment_resume, other_kind, Marker, Revocation,
  Disk, DelegationLedger, ensure_loaded,
}

abbrev pub same_scope : Marker → Marker → Bool
same_scope m n = text_eq m.scope n.scope && text_eq m.scope_id n.scope_id

-- `active[key] = row`
abbrev pub put_hold : Marker → List Marker → List Marker
put_hold m [] = m ∷ []
put_hold m (n ∷ ns) = let rest = put_hold m ns in if same_scope m n then m ∷ ns else n ∷ rest

-- `active.pop(key, None)`
abbrev pub drop_hold : Marker → List Marker → List Marker
drop_hold m ns = keep_if (λ n. not (same_scope m n)) ns

abbrev pub apply_marker : List Marker → Marker → MarkerKind → List Marker
apply_marker ns m containment_hold_active = put_hold m ns
apply_marker ns m containment_resume = drop_hold m ns
apply_marker ns m other_kind = ns

unfoldable pub holds_after : List Marker → List Marker → List Marker
holds_after ns [] = ns
holds_after ns (m ∷ ms) = holds_after (apply_marker ns m m.kind) ms

abbrev pub is_hold : MarkerKind → Bool
is_hold containment_hold_active = true
is_hold _ = false

-- `_active_containment_holds`, of a ledger that is loaded.
unfoldable pub active_holds : DelegationLedger → List Marker
unfolding holds_after
active_holds l = keep_if (λ m. is_hold m.kind) (holds_after [] l.control_rows)

abbrev pub parent_of : Option Row → Option Text
parent_of none = none
parent_of (some r) = cited (dict_parent_id r.token)

abbrev step_up :
    (List Text → Option Text → List Text) → Dict Row → List Text → Option Text → List Text
step_up onward d ids none = ids
step_up onward d ids (some i) = elim (mem_text i ids) [
  | true ↦ ids
  | false ↦ onward (ids ++ i ∷ []) (parent_of (get i d))
]

-- The loop of `_chain_ids`; each round but the last meets a record that was not met before.
unfoldable pub chain_from : Dict Row → ℕ → List Text → Option Text → List Text
chain_from d zero ids current = ids
chain_from d (suc fuel) ids current = step_up (chain_from d fuel) d ids current

-- `_chain_ids`
unfoldable pub chain_ids : Dict Row → Fields → List Text
unfolding chain_from
chain_ids d t =
    chain_from d (suc (suc (length d))) (dict_token_id t ∷ []) (cited (dict_parent_id t))

abbrev pub hits : List Text → Text → Marker → Bool
hits chain agent m =
    (text_eq m.scope (text "agent") && text_eq agent m.scope_id)
    || (text_eq m.scope (text "chain") && mem_text m.scope_id chain)

-- The first hold that the token falls under.
abbrev pub first_hit : List Text → Text → List Marker → Option Marker
first_hit chain agent [] = none
first_hit chain agent (m ∷ ms) =
    let rest = first_hit chain agent ms in if hits chain agent m then some m else rest

-- `marker.get("revocations_path", "") or marker.get("target_path", "")`
abbrev pub surface : Marker → Text
surface m = if is_empty m.revocations_path then m.target_path else m.revocations_path

abbrev pub revocation : Fields → Marker → Text → Revocation
revocation t m stamp = record {
  token_id = dict_token_id t;
  actor = m.actor;
  timestamp = stamp;
  hold_receipt_id = m.receipt_id;
}

abbrev pub revoke_on : Disk → Text → Revocation → Disk
revoke_on d path r = record d {
  revocations = put path (or_default (get path d.revocations) [] ++ r ∷ []) d.revocations;
}

-- `_propagate_hold_revocation`
unfoldable pub propagate : Disk → Fields → Marker → Text → Result Disk
propagate d t m stamp =
    if is_empty (surface m)
    then err hold_uncovered
    else if d.writable (surface m)
    then ok (revoke_on d (surface m) (revocation t m stamp))
    else err hold_uncovered

abbrev pub cover : Disk → Fields → Text → Option Marker → Result Disk
cover d t stamp none = ok d
cover d t stamp (some m) = propagate d t m stamp

-- The hold that `_hold_check` acts on.
unfoldable pub hold_on : DelegationLedger → Fields → Text → Option Marker
unfolding active_holds chain_ids
hold_on l t agent = first_hit (chain_ids l.records t) agent (active_holds l)

-- `_hold_check`; the ledger is read again where its file has changed.
unfoldable pub hold_check :
    DelegationLedger → Disk → Fields → Text → Text → Result (DelegationLedger × Disk)
unfolding ensure_loaded hold_on propagate
hold_check l d t agent stamp =
    ensure_loaded l d >>= λ m. cover d t stamp (hold_on m t agent) >>= λ e. ok (m, e)
