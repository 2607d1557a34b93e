-- ===== src/Transparency/Anchor.antt =====
-- `verify_transparency_anchor`, and when it says that a chain is anchored.
use mathlib.Core.Path.{subst}
use raucle.Prelude.{
  ◌≡◌, refl, sym, ap, ◌∙◌, Bool, true, false, not, ◌||◌, Option, none, some, List, [], ◌∷◌, ◌++◌,
}
use raucle.Text.{Text, text}
use raucle.Json.{null, Value, scalar, arr, obj, Fields, get_field, has_field}
use raucle.Json.Objects.{is_text, is_integer, value_or}
use raucle.Platform.{Platform}
use raucle.Result.{Result, ok, ◌>>=◌, >>=-eq-ok, ok-injective}
use raucle.Audit.Sink.{Line}
use raucle.Transparency.Head.{ChainHead, compute_chain_head}

pub data AnchorStatus : Type 0 where
  transparency_anchored digest_mismatch self_signed_only : AnchorStatus

pub data AnchorReason : Type 0 where
  no_statement not_required unreadable_statement unreadable_head : AnchorReason
  other_chain other_hash other_index no_signature digest_matches : AnchorReason

pub record TransparencyCheck : Type 0 where
  pub status : AnchorStatus
  pub chain_head : ChainHead
  pub reasons : List AnchorReason

abbrev pub mismatch : ChainHead → List AnchorReason → TransparencyCheck
mismatch h rs = record { status = digest_mismatch; chain_head = h; reasons = rs }

-- `statement.get("chain_id") not in (None, chain_id)`
abbrev pub other_id : Option Value → Text → Bool
other_id none c = false
other_id (some (scalar null)) c = false
other_id v c = not (is_text v c)

abbrev pub id_differs : Fields → Option Text → Bool
id_differs fs none = false
id_differs fs (some c) = other_id (get_field (text "chain_id") fs) c

-- `_SIGNATURE_FIELDS`
abbrev pub has_signature : Fields → Bool
has_signature fs =
    has_field fs (text "signature")
    || (has_field fs (text "signatures") || has_field fs (text "cose"))

abbrev pub reason_if : Bool → AnchorReason → List AnchorReason
reason_if true r = r ∷ []
reason_if false r = []

-- The reasons against the anchor, in their order.
abbrev pub mismatches : ChainHead → Fields → Fields → Fields → Option Text → List AnchorReason
mismatches h signed statement anchored chain_id =
    reason_if (id_differs statement chain_id) other_chain
    ++ (reason_if (not (is_text (get_field (text "hash") anchored) h.hash)) other_hash
        ++ (reason_if (not (is_integer (get_field (text "index") anchored) h.index)) other_index
            ++ reason_if (not (has_signature signed)) no_signature))

abbrev pub conclude_check : ChainHead → List AnchorReason → TransparencyCheck
conclude_check h [] = record {
  status = transparency_anchored;
  chain_head = h;
  reasons = digest_matches ∷ [];
}
conclude_check h (r ∷ rs) = mismatch h (r ∷ rs)

abbrev pub check_head : ChainHead → Fields → Fields → Option Text → Option Value → TransparencyCheck
check_head h signed statement chain_id (some (obj anchored)) =
    conclude_check h (mismatches h signed statement anchored chain_id)
check_head h signed statement chain_id _ = mismatch h (unreadable_head ∷ [])

abbrev pub check_statement : ChainHead → Fields → Option Text → Value → TransparencyCheck
check_statement h signed chain_id (obj statement) =
    check_head h signed statement chain_id (get_field (text "chain_head") statement)
check_statement h signed chain_id _ = mismatch h (unreadable_statement ∷ [])

abbrev pub check_anchor : ChainHead → Option Fields → Option Text → Bool → TransparencyCheck
check_anchor h none chain_id required = record {
  status = self_signed_only;
  chain_head = h;
  reasons = no_statement ∷ reason_if required not_required;
}
check_anchor h (some signed) chain_id required =
    check_statement h signed chain_id (value_or (get_field (text "statement") signed) (obj signed))

unfoldable pub verify_transparency_anchor :
    Platform → List Line → Option Fields → Option Text → Bool → Result TransparencyCheck
unfolding compute_chain_head
verify_transparency_anchor p ls signed chain_id required =
    compute_chain_head p ls >>= λ h. ok (check_anchor h signed chain_id required)

-- The statement names the head, is of the chain that was asked for, and is signed in some way.
pub record Anchored (h : ChainHead) (signed : Fields) (chain_id : Option Text) : Type 0 where
  pub statement : Fields
  pub stated : value_or (get_field (text "statement") signed) (obj signed) ≡ obj statement
  pub anchored : Fields
  pub names : get_field (text "chain_head") statement ≡ some (obj anchored)
  pub same_hash : is_text (get_field (text "hash") anchored) h.hash ≡ true
  pub same_index : is_integer (get_field (text "index") anchored) h.index ≡ true
  pub same_chain : id_differs statement chain_id ≡ false
  pub carries_signature : has_signature signed ≡ true

no_reasons :
    (a b c d : Bool) (x y z w : AnchorReason) (h : ChainHead)
    → (conclude_check h (
        reason_if a x
        ++ (reason_if (not b) y ++ (reason_if (not c) z ++ reason_if (not d) w)))).status
      ≡ transparency_anchored
    → (a ≡ false) × (b ≡ true) × (c ≡ true) × (d ≡ true)
no_reasons false true true true x y z w h e = (refl, refl, refl, refl)
no_reasons true b c d x y z w h e = cc
no_reasons false false c d x y z w h e = cc
no_reasons false true false d x y z w h e = cc
no_reasons false true true false x y z w h e = cc

check_head-Anchored :
    (h : ChainHead) (signed statement : Fields) (chain_id : Option Text) (o : Option Value)
    → value_or (get_field (text "statement") signed) (obj signed) ≡ obj statement
    → get_field (text "chain_head") statement ≡ o
    → (check_head h signed statement chain_id o).status ≡ transparency_anchored
    → Anchored h signed chain_id
check_head-Anchored h signed statement chain_id none e f q = cc
check_head-Anchored h signed statement chain_id (some (scalar s)) e f q = cc
check_head-Anchored h signed statement chain_id (some (arr xs)) e f q = cc
check_head-Anchored h signed statement chain_id (some (obj anchored)) e f q =
    let (a, b, c, d) = no_reasons _ _ _ _ other_chain other_hash other_index no_signature h q in
    record {
      statement = statement;
      stated = e;
      anchored = anchored;
      names = f;
      same_hash = b;
      same_index = c;
      same_chain = a;
      carries_signature = d;
    }

check_statement-Anchored :
    (h : ChainHead) (signed : Fields) (chain_id : Option Text) (v : Value)
    → value_or (get_field (text "statement") signed) (obj signed) ≡ v
    → (check_statement h signed chain_id v).status ≡ transparency_anchored
    → Anchored h signed chain_id
check_statement-Anchored h signed chain_id (scalar s) e q = cc
check_statement-Anchored h signed chain_id (arr xs) e q = cc
check_statement-Anchored h signed chain_id (obj statement) e q =
    check_head-Anchored h signed statement chain_id _ e refl q

check_anchor-Anchored :
    (h : ChainHead) (o : Option Fields) (chain_id : Option Text) (required : Bool)
    → (check_anchor h o chain_id required).status ≡ transparency_anchored
    → (signed : Fields) × (o ≡ some signed) × Anchored h signed chain_id
check_anchor-Anchored h none chain_id required q = cc
check_anchor-Anchored h (some signed) chain_id required q =
    (signed, refl, check_statement-Anchored h signed chain_id _ refl q)

-- Every check carries the head that it was made for.
conclude_check-head :
    (h : ChainHead) (rs : List AnchorReason) → (conclude_check h rs).chain_head ≡ h
conclude_check-head h [] = refl
conclude_check-head h (r ∷ rs) = refl

check_head-head :
    (h : ChainHead) (signed statement : Fields) (chain_id : Option Text) (o : Option Value)
    → (check_head h signed statement chain_id o).chain_head ≡ h
check_head-head h signed statement chain_id none = refl
check_head-head h signed statement chain_id (some (scalar s)) = refl
check_head-head h signed statement chain_id (some (arr xs)) = refl
check_head-head h signed statement chain_id (some (obj anchored)) =
    conclude_check-head h (mismatches h signed statement anchored chain_id)

check_statement-head :
    (h : ChainHead) (signed : Fields) (chain_id : Option Text) (v : Value)
    → (check_statement h signed chain_id v).chain_head ≡ h
check_statement-head h signed chain_id (scalar s) = refl
check_statement-head h signed chain_id (arr xs) = refl
check_statement-head h signed chain_id (obj statement) =
    check_head-head h signed statement chain_id (get_field (text "chain_head") statement)

check_anchor-head :
    (h : ChainHead) (o : Option Fields) (chain_id : Option Text) (required : Bool)
    → (check_anchor h o chain_id required).chain_head ≡ h
check_anchor-head h none chain_id required = refl
check_anchor-head h (some signed) chain_id required =
    check_statement-head h signed chain_id
      (value_or (get_field (text "statement") signed) (obj signed))

-- A file is reported as anchored only if there is a statement that names the index and the hash of the
-- head that is computed from the file, carries a signature member, and names no other chain than the
-- one that was asked for.
pub verify_transparency_anchor-Anchored :
    (p : Platform) (ls : List Line) (o : Option Fields) (chain_id : Option Text) (required : Bool)
    (c : TransparencyCheck)
    → verify_transparency_anchor p ls o chain_id required ≡ ok c
    → c.status ≡ transparency_anchored
    → (signed : Fields) × (o ≡ some signed)
      × (compute_chain_head p ls ≡ ok c.chain_head)
      × Anchored c.chain_head signed chain_id
unfolding verify_transparency_anchor
verify_transparency_anchor-Anchored p ls o chain_id required c h q =
    let (g, e, h1) =
      >>=-eq-ok (compute_chain_head p ls) (λ x. ok (check_anchor x o chain_id required)) h in
    let same : check_anchor g o chain_id required ≡ c = ok-injective h1 in
    let heads : g ≡ c.chain_head =
      sym (check_anchor-head g o chain_id required) ∙ ap (λ x. x.chain_head) same in
    let (signed, there, a) =
      check_anchor-Anchored g o chain_id required (ap (λ x. x.status) same ∙ q) in
    (signed, there, e ∙ ap ok heads, subst (λ x. Anchored x signed chain_id) heads a)
