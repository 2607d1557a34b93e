-- ===== src/Ledger/Reach.antt =====
-- What `descendants` lists: the tokens whose chain of parents reaches the one that it is asked about.
use mathlib.Core.Path.{subst}
use raucle.Prelude.{
  ℕ, zero, suc, ◌≡◌, refl, sym, ap, ◌⊎◌, inl, inr, ◌↔◌, ◌<◌, Bool, true, false, Option, none, some,
  List, [], ◌∷◌, ◌++◌, arith, if◌then◌else◌, In, In-append, In-left, In-right,
}
use raucle.Text.{Text, text_eq_sound, text_eq_refl}
use raucle.Dict.{Dict}
use raucle.Wire.{dict_parent_id}
use raucle.Gate.{cited}
use raucle.Ledger.Defs.{Row}
use raucle.Ledger.Subtree.{names_parent, children, push, walk_down, subtree}

-- A row with the id `j` names `i` as its parent.
abbrev pub Child : Dict Row → Text → Text → Type 0
Child [] i j = ⊥
Child ((k, r) ∷ d) i j = ((k ≡ j) × (cited (dict_parent_id r.token) ≡ some i)) ⊎ Child d i j

-- The chain of parents from `j` reaches the root.
pub data Under (d : Dict Row) (root : Text) : Text → Type 0 where
  here : Under d root root
  below : {i j : Text} → Under d root i → Child d i j → Under d root j

names_parent_sound : (o : Option Text) (i : Text) → names_parent o i ≡ true → o ≡ some i
names_parent_sound none i h = cc
names_parent_sound (some j) i h = ap some (text_eq_sound j i h)

children_sound : (d : Dict Row) (i j : Text) → In j (children d i) → Child d i j
children_sound [] i j h = h
children_sound ((k, r) ∷ d) i j h =
    by_row (names_parent (cited (dict_parent_id r.token)) i) refl h (children_sound d i j)
  where
    by_row :
        (b : Bool)
        → names_parent (cited (dict_parent_id r.token)) i ≡ b
        → In j (if b then k ∷ children d i else children d i)
        → (In j (children d i) → Child d i j)
        → Child ((k, r) ∷ d) i j
    by_row true e (inl same) rest =
        inl (sym same, names_parent_sound (cited (dict_parent_id r.token)) i e)
    by_row true e (inr h) rest = inr (rest h)
    by_row false e h rest = inr (rest h)

children_complete : (d : Dict Row) (i j : Text) → Child d i j → In j (children d i)
children_complete [] i j h = absurd h
children_complete ((k, r) ∷ d) i j (inl (same, e)) =
    let c : names_parent (cited (dict_parent_id r.token)) i ≡ true = rw e (text_eq_refl i) in
    rw c (inl (sym same))
children_complete ((k, r) ∷ d) i j (inr h) =
    keep (names_parent (cited (dict_parent_id r.token)) i) (children_complete d i j h)
  where
    keep : (b : Bool) → In j (children d i) → In j (if b then k ∷ children d i else children d i)
    keep true h = inr h
    keep false h = h

push-queue : (x : Text) (cs queue : List Text) → In x queue → In x (push cs queue)
push-queue x [] queue h = h
push-queue x (c ∷ cs) queue h = push-queue x cs (c ∷ queue) (inr h)

push-new : (x : Text) (cs queue : List Text) → In x cs → In x (push cs queue)
push-new x [] queue h = absurd h
push-new x (c ∷ cs) queue (inl e) = push-queue x cs (c ∷ queue) (inl e)
push-new x (c ∷ cs) queue (inr h) = push-new x cs (c ∷ queue) h

push-In : (x : Text) (cs queue : List Text) → In x (push cs queue) → In x cs ⊎ In x queue
push-In x [] queue h = inr h
push-In x (c ∷ cs) queue h = elim (push-In x cs (c ∷ queue) h) [
  | inl a ↦ inl (inr a)
  | inr (inl e) ↦ inl (inl e)
  | inr (inr b) ↦ inr b
]

module _ (d : Dict Row) (root : Text) where
  abbrev AllUnder : List Text → Type 0
  AllUnder xs = (x : Text) → In x xs → Under d root x

  children-Under : (i : Text) → Under d root i → AllUnder (children d i)
  children-Under i u x h = below u (children_sound d i x h)

  walk_down-Under :
      (fuel : ℕ) (out queue ids : List Text)
      → walk_down d fuel out queue ≡ some ids
      → AllUnder out
      → AllUnder queue
      → AllUnder ids
  unfolding walk_down
  walk_down-Under fuel out [] ids e a b = let same : out ≡ ids = cc in subst AllUnder same a
  walk_down-Under zero out (i ∷ queue) ids e a b = cc
  walk_down-Under (suc fuel) out (i ∷ queue) ids e a b =
      let new = children-Under i (b i (inl refl)) in
      walk_down-Under fuel (out ++ children d i) (push (children d i) queue) ids e
        (λ x h. elim (In-append x out (children d i) h) [ inl p ↦ a x p | inr q ↦ new x q ])
        (λ x h. elim (push-In x (children d i) queue h) [ inl p ↦ new x p | inr q ↦ b x (inr q) ])

  -- What has been listed has its children listed too, or is still to be walked.
  abbrev Settled : List Text → List Text → Type 0
  Settled out queue = (x : Text) → In x out → ((j : Text) → Child d x j → In j out) ⊎ In x queue

  Settled-round :
      (i : Text) (out queue : List Text)
      → Settled out (i ∷ queue)
      → Settled (out ++ children d i) (push (children d i) queue)
  Settled-round i out queue s x h = elim (In-append x out (children d i) h) [
    | inr new ↦ inr (push-new x (children d i) queue new)
    | inl old ↦ elim (s x old) [
      | inl closed ↦ inl (λ j c. In-left j out (children d i) (closed j c))
      | inr (inl same) ↦ inl (λ j c.
          In-right j out (children d i) (children_complete d i j (subst (λ y. Child d y j) same c)))
      | inr (inr waits) ↦ inr (push-queue x (children d i) queue waits)
    ]
  ]

  walk_down-closed :
      (fuel : ℕ) (out queue ids : List Text)
      → walk_down d fuel out queue ≡ some ids
      → Settled out queue
      → ((x : Text) → In x out → In x ids) × Settled ids []
  unfolding walk_down
  walk_down-closed fuel out [] ids e s =
      let same : out ≡ ids = cc in
      (
        subst (λ xs. (x : Text) → In x out → In x xs) same (λ x h. h),
        subst (λ xs. Settled xs []) same s,
      )
  walk_down-closed zero out (i ∷ queue) ids e s = cc
  walk_down-closed (suc fuel) out (i ∷ queue) ids e s =
      let (kept, closed) =
        walk_down-closed fuel (out ++ children d i) (push (children d i) queue) ids e
          (Settled-round i out queue s) in
      (λ x h. kept x (In-left x out (children d i) h), closed)

  Under-In :
      (ids : List Text) → In root ids → Settled ids [] → (j : Text) → Under d root j → In j ids
  Under-In ids r s j here = r
  Under-In ids r s j (below {i = i} u c) = elim (s i (Under-In ids r s i u)) [
    | inl closed ↦ closed j c
    | inr none_left ↦ absurd none_left
  ]

-- The subtree that `descendants` returns holds exactly the token itself and the tokens of the ledger
-- whose chain of parents reaches it.
pub subtree_iff :
    (fuel : ℕ) (d : Dict Row) (i : Text) (ids : List Text)
    → subtree fuel d i ≡ some ids
    → (j : Text) → In j ids ↔ Under d i j
unfolding subtree
subtree_iff fuel d i ids e j =
    let only : (x : Text) → In x (i ∷ []) → Under d i x = λ x h. elim h [
      | inl same ↦ subst (Under d i) (sym same) here
      | inr no_more ↦ absurd no_more
    ] in
    let (kept, closed) = walk_down-closed d i fuel (i ∷ []) (i ∷ []) ids e (λ x h. inr h) in
    (
      walk_down-Under d i fuel (i ∷ []) (i ∷ []) ids e only only j,
      Under-In d i ids (kept i (inl refl)) closed j,
    )

-- The walk ends.
abbrev Finishes : Dict Row → List Text → Type 0
Finishes d queue =
    (out : List Text) → (fuel : ℕ) × (ids : List Text) × (walk_down d fuel out queue ≡ some ids)

push-Finishes :
    (d : Dict Row) (cs queue : List Text)
    → ((c : Text) (q : List Text) → In c cs → Finishes d q → Finishes d (c ∷ q))
    → Finishes d queue
    → Finishes d (push cs queue)
push-Finishes d [] queue each h = h
push-Finishes d (c ∷ cs) queue each h =
    push-Finishes d cs (c ∷ queue) (λ x q m. each x q (inr m)) (each c queue (inl refl) h)

item-Finishes :
    (d : Dict Row) (rank : Text → ℕ)
    → ((i j : Text) → Child d i j → rank j < rank i)
    → (height : ℕ) (i : Text) (queue : List Text) → rank i < height
    → Finishes d queue
    → Finishes d (i ∷ queue)
unfolding walk_down
item-Finishes d rank down zero i queue low h out = absurd (omega arith)
item-Finishes d rank down (suc height) i queue low h out =
    let each : (c : Text) (q : List Text)
        → In c (children d i)
        → Finishes d q
        → Finishes d (c ∷ q) =
      λ c q m.
        let lower : rank c < rank i = down i c (children_sound d i c m) in
        item-Finishes d rank down height c q (omega arith) in
    let (fuel, ids, e) = push-Finishes d (children d i) queue each h (out ++ children d i) in
    (suc fuel, ids, e)

-- `descendants` returns where every token of the ledger stands lower than its parent in some rank.
pub subtree-returns :
    (d : Dict Row) (rank : Text → ℕ) (down : (i j : Text) → Child d i j → rank j < rank i)
    (i : Text)
    → (fuel : ℕ) × (ids : List Text) × (subtree fuel d i ≡ some ids)
unfolding subtree walk_down
subtree-returns d rank down i =
    item-Finishes d rank down (suc (rank i)) i [] (omega arith) (λ out. (0, out, refl)) (i ∷ [])

walk_down-endless :
    (d : Dict Row) (i : Text)
    → Child d i i
    → (fuel : ℕ) (out queue : List Text) → In i queue
    → walk_down d fuel out queue ≡ none
unfolding walk_down
walk_down-endless d i own fuel out [] h = absurd h
walk_down-endless d i own zero out (j ∷ queue) h = refl
walk_down-endless d i own (suc fuel) out (j ∷ queue) (inl same) =
    walk_down-endless d i own fuel (out ++ children d j) (push (children d j) queue) (
      push-new i (children d j) queue (children_complete d j i (subst (λ x. Child d x i) same own)))
walk_down-endless d i own (suc fuel) out (j ∷ queue) (inr h) =
    walk_down-endless d i own fuel (out ++ children d j) (push (children d j) queue)
      (push-queue i (children d j) queue h)

-- If a row of the ledger names its own id as its parent, `descendants` of that id never returns.
pub subtree-endless : (d : Dict Row) (i : Text) → Child d i i → (fuel : ℕ) → subtree fuel d i ≡ none
unfolding subtree
subtree-endless d i own fuel = walk_down-endless d i own fuel (i ∷ []) (i ∷ []) (inl refl)
