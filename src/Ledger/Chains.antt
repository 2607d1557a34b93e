-- ===== src/Ledger/Chains.antt =====
-- `_chain_ids` finds every ancestor: its loop is never cut off.
use mathlib.Core.Path.{subst}
use raucle.Prelude.{
  ℕ, zero, suc, ◌≡◌, refl, sym, ap, ◌∙◌, ◌⊎◌, inl, inr, ◌≤◌, ◌<◌, Bool, true, false, Option, none,
  some, List, [], ◌∷◌, ◌++◌, length, arith, Bool-cases, Option-cases, In, In-append, In-left,
  In-right,
}
use raucle.Text.{Text, text_eq, text_eq_sound, text_eq_refl, mem_text}
use raucle.Dict.{Dict, get}
use raucle.Json.{Fields}
use raucle.Wire.{dict_token_id, dict_parent_id}
use raucle.Gate.{cited}
use raucle.Ledger.Defs.{Row}
use raucle.Ledger.Holds.{parent_of, chain_from, chain_ids}

-- The id is met on the way up from the first one, from row to row.
pub data Above (d : Dict Row) (first : Option Text) : Text → Type 0 where
  nearest : {i : Text} → first ≡ some i → Above d first i
  further : {i j : Text} → Above d first i → parent_of (get i d) ≡ some j → Above d first j

mem_text-In : (i : Text) (ids : List Text) → mem_text i ids ≡ true → In i ids
mem_text-In i [] h = cc
mem_text-In i (x ∷ ids) h = elim (Bool-cases (text_eq x i)) [
  | inl same ↦ inl (sym (text_eq_sound x i same))
  | inr other ↦ inr (mem_text-In i ids (rw (mem_text, other) at h))
]

In-mem_text : (i : Text) (ids : List Text) → In i ids → mem_text i ids ≡ true
In-mem_text i [] h = absurd h
In-mem_text i (x ∷ ids) (inl same) =
    let e : text_eq x i ≡ true = subst (λ y. text_eq y i ≡ true) same (text_eq_refl i) in
    rw (mem_text, e) refl
In-mem_text i (x ∷ ids) (inr h) = by_test (text_eq x i) (In-mem_text i ids h)
  where
    by_test :
        (b : Bool)
        → mem_text i ids ≡ true
        → elim b as (λ _. Bool) [ true ↦ true | false ↦ mem_text i ids ] ≡ true
    by_test true h = refl
    by_test false h = h

abbrev count_unless : Bool → ℕ → ℕ
count_unless true n = n
count_unless false n = suc n

-- How many rows the walk has not met.
abbrev unmet : Dict Row → List Text → ℕ
unmet [] ids = 0
unmet ((k, r) ∷ d) ids = count_unless (mem_text k ids) (unmet d ids)

count_mono :
    (a b : Bool) (m n : ℕ) → (b ≡ true → a ≡ true) → m ≤ n → count_unless a m ≤ count_unless b n
count_mono true true m n f h = h
count_mono true false m n f h = omega arith
count_mono false true m n f h = let e = f refl in cc
count_mono false false m n f h = omega arith

count_drop :
    (a b : Bool) (m n : ℕ) → (b ≡ true → a ≡ true) → m < n → count_unless a m < count_unless b n
count_drop true true m n f h = h
count_drop true false m n f h = omega arith
count_drop false true m n f h = let e = f refl in cc
count_drop false false m n f h = omega arith

still_met :
    (k i : Text) (ids : List Text) → mem_text k ids ≡ true → mem_text k (ids ++ i ∷ []) ≡ true
still_met k i ids h = In-mem_text k (ids ++ i ∷ []) (In-left k ids (i ∷ []) (mem_text-In k ids h))

unmet_mono : (d : Dict Row) (i : Text) (ids : List Text) → unmet d (ids ++ i ∷ []) ≤ unmet d ids
unmet_mono [] i ids = omega arith
unmet_mono ((k, r) ∷ d) i ids =
    count_mono (mem_text k (ids ++ i ∷ [])) (mem_text k ids) (unmet d (ids ++ i ∷ [])) (unmet d ids)
      (still_met k i ids) (unmet_mono d i ids)

count_new :
    (a b : Bool) (m n : ℕ) → a ≡ true → b ≡ false → m ≤ n → count_unless a m < count_unless b n
count_new true false m n e f h = omega arith
count_new true true m n e f h = cc
count_new false b m n e f h = cc

-- A row that is met for the first time.
unmet-drops :
    (d : Dict Row) (i : Text) (r : Row) (ids : List Text)
    → get i d ≡ some r
    → mem_text i ids ≡ false
    → unmet d (ids ++ i ∷ []) < unmet d ids
unfolding get
unmet-drops [] i r ids e new = cc
unmet-drops ((k, s) ∷ d) i r ids e new = elim (Bool-cases (text_eq k i)) [
  | inl same ↦
      (let k_is : k ≡ i = text_eq_sound k i same in
        count_new (mem_text k (ids ++ i ∷ [])) (mem_text k ids) (unmet d (ids ++ i ∷ []))
          (unmet d ids) (In-mem_text k (ids ++ i ∷ []) (In-right k ids (i ∷ []) (inl k_is)))
          (subst (λ x. mem_text x ids ≡ false) (sym k_is) new) (unmet_mono d i ids))
  | inr other ↦
      count_drop (mem_text k (ids ++ i ∷ [])) (mem_text k ids) (unmet d (ids ++ i ∷ []))
        (unmet d ids) (still_met k i ids) (unmet-drops d i r ids (rw other at e) new)
]

unmet_bound : (d : Dict Row) (ids : List Text) → unmet d ids ≤ length d
unmet_bound [] ids = omega arith
unmet_bound ((k, r) ∷ d) ids = at_most (mem_text k ids) (unmet d ids) (length d) (unmet_bound d ids)
  where
    at_most : (b : Bool) (m n : ℕ) → m ≤ n → count_unless b m ≤ suc n
    at_most true m n h = omega arith
    at_most false m n h = omega arith

module _ (d : Dict Row) where
  -- Parents of what is listed are listed, or next.
  abbrev Complete : List Text → Option Text → Type 0
  Complete ids current =
      (i j : Text) → In i ids → parent_of (get i d) ≡ some j → In j ids ⊎ (current ≡ some j)

  abbrev Enough : ℕ → List Text → Option Text → Type 0
  Enough fuel ids current = (i : Text) → current ≡ some i → unmet d ids < fuel

  Complete-step :
      (ids : List Text) (i : Text)
      → Complete ids (some i)
      → Complete (ids ++ i ∷ []) (parent_of (get i d))
  Complete-step ids i c x j h e = elim (In-append x ids (i ∷ []) h) [
    | inl old ↦ elim (c x j old e) [
      | inl there ↦ inl (In-left j ids (i ∷ []) there)
      | inr now ↦ (let same : i ≡ j = cc in inl (In-right j ids (i ∷ []) (inl (sym same))))
    ]
    | inr (inl same) ↦ inr (subst (λ y. parent_of (get y d) ≡ some j) same e)
    | inr (inr none_left) ↦ absurd none_left
  ]

  Enough-step :
      (fuel : ℕ) (ids : List Text) (i : Text)
      → mem_text i ids ≡ false
      → unmet d ids < suc fuel
      → Enough fuel (ids ++ i ∷ []) (parent_of (get i d))
  Enough-step fuel ids i new low j e = elim (Option-cases (get i d)) [
    | inl gone ↦ (let no_parent : none ≡ some j = sym (ap parent_of gone) ∙ e in cc)
    | inr (r, found) ↦ (let less = unmet-drops d i r ids found new in omega arith)
  ]

  chain_from-met :
      (fuel : ℕ) (ids : List Text) (i : Text)
      → mem_text i ids ≡ true
      → chain_from d (suc fuel) ids (some i) ≡ ids
  unfolding chain_from
  chain_from-met fuel ids i h =
      ap
        (λ b. elim b as (λ _. List Text) [
          | true ↦ ids
          | false ↦ chain_from d fuel (ids ++ i ∷ []) (parent_of (get i d))
        ])
        h

  chain_from-new :
      (fuel : ℕ) (ids : List Text) (i : Text)
      → mem_text i ids ≡ false
      → chain_from d (suc fuel) ids (some i)
        ≡ chain_from d fuel (ids ++ i ∷ []) (parent_of (get i d))
  unfolding chain_from
  chain_from-new fuel ids i h =
      ap
        (λ b. elim b as (λ _. List Text) [
          | true ↦ ids
          | false ↦ chain_from d fuel (ids ++ i ∷ []) (parent_of (get i d))
        ])
        h

  -- The result holds what was listed or next, and the parents of all that it holds.
  abbrev Collects : List Text → Option Text → List Text → Type 0
  Collects ids current result =
      Complete result none × ((i : Text) → In i ids ⊎ (current ≡ some i) → In i result)

  -- All that was listed or next is in the result, with the parents of all that is there.
  chain_from-Complete :
      (fuel : ℕ) (ids : List Text) (current : Option Text)
      → Complete ids current
      → Enough fuel ids current
      → Collects ids current (chain_from d fuel ids current)
  unfolding chain_from
  chain_from-Complete zero ids none c low = (c, λ i h. elim h [ inl there ↦ there | inr now ↦ cc ])
  chain_from-Complete (suc fuel) ids none c low =
      (c, λ i h. elim h [ inl there ↦ there | inr now ↦ cc ])
  chain_from-Complete zero ids (some i) c low = let no_fuel = low i refl in absurd (omega arith)
  chain_from-Complete (suc fuel) ids (some i) c low = elim (Bool-cases (mem_text i ids)) [
    | inl met ↦
        (let listed = mem_text-In i ids met in
          subst (Collects ids (some i)) (sym (chain_from-met fuel ids i met)) (
            (λ x j h e. elim (c x j h e) [
              | inl there ↦ inl there
              | inr now ↦ (let same : i ≡ j = cc in inl (subst (λ y. In y ids) same listed))
            ]),
            λ x h. elim h [
              | inl there ↦ there
              | inr now ↦ (let same : i ≡ x = cc in subst (λ y. In y ids) same listed)
            ],
          ))
    | inr new ↦
        (let (all_of, kept) =
            chain_from-Complete fuel (ids ++ i ∷ []) (parent_of (get i d)) (Complete-step ids i c)
              (Enough-step fuel ids i new (low i refl)) in
          subst (Collects ids (some i)) (sym (chain_from-new fuel ids i new)) (
            all_of,
            λ x h. elim h [
              | inl there ↦ kept x (inl (In-left x ids (i ∷ []) there))
              | inr now ↦
                  (let same : i ≡ x = cc in kept x (inl (In-right x ids (i ∷ []) (inl (sym same)))))
            ],
          ))
  ]

  Above-In :
      (first : Option Text) (ids : List Text)
      → Complete ids none
      → ((i : Text) → first ≡ some i → In i ids)
      → (x : Text) → Above d first x
      → In x ids
  Above-In first ids c start x (nearest e) = start x e
  Above-In first ids c start x (further {i = i} u e) =
      elim (c i x (Above-In first ids c start i u) e) [ inl there ↦ there | inr now ↦ cc ]

-- The ids that `_chain_ids` collects hold every ancestor of the token, however long its chain is, if a row
-- under the token's own id has the same parent as the token.
pub chain_ids-Above :
    (d : Dict Row) (t : Fields)
    → ((r : Row)
        → get (dict_token_id t) d ≡ some r
        → cited (dict_parent_id r.token) ≡ cited (dict_parent_id t))
    → (x : Text) → Above d (cited (dict_parent_id t)) x
    → In x (chain_ids d t)
unfolding chain_ids
chain_ids-Above d t own x u =
    let first = cited (dict_parent_id t) in
    let at_start : Complete d ((dict_token_id t) ∷ []) first =
      λ i j h e. elim h [ inl same ↦ inr (by_row i j same e) | inr none_left ↦ absurd none_left ] in
    let bound = unmet_bound d ((dict_token_id t) ∷ []) in
    let (all_of, kept) =
      chain_from-Complete d (suc (suc (length d))) ((dict_token_id t) ∷ []) first at_start
        (λ i e. omega arith) in
    Above-In d first _ all_of (λ i e. kept i (inr e)) x u
  where
    by_row :
        (i j : Text)
        → i ≡ (dict_token_id t)
        → parent_of (get i d) ≡ some j
        → cited (dict_parent_id t) ≡ some j
    by_row i j same e =
        from_row (get (dict_token_id t) d) refl (subst (λ y. parent_of (get y d) ≡ some j) same e)
      where
        from_row :
            (o : Option Row)
            → get (dict_token_id t) d ≡ o
            → parent_of o ≡ some j
            → cited (dict_parent_id t) ≡ some j
        from_row none f e = cc
        from_row (some r) f e = sym (own r f) ∙ e
