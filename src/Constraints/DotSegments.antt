-- ===== src/Constraints/DotSegments.antt =====
-- The dot segments of a path, and how `_canonical_file_uri` removes them.
use mathlib.Core.List.{reverse, reverse_aux, reverse_aux-eq}
use mathlib.Core.Path.{subst}
use raucle.Prelude.{
  ◌≡◌, refl, sym, ap, ◌∙◌, inl, inr, Bool, true, false, List, [], ◌∷◌, ◌++◌, All, arith, ℕ, ◌==◌,
  ==_iff, not, all, ◌≤◌, length, ltb, if◌then◌else◌, Bool-cases,
}
use raucle.Text.{Text, text, text_eq, text_eq_sound}
use raucle.Constraints.FileUri.{
  slash, push_char, split_slash, join_slash, pop_segment, keep_segment, resolve_segments,
}

-- There is no slash in the text.
abbrev pub is_slash_free : Text → Bool
is_slash_free s = all (λ c. not (c == slash)) s

abbrev pub IsWhole : Text → Type 0
IsWhole s = is_slash_free s ≡ true

-- The segment has no slash and is neither `.` nor `..`.
abbrev pub IsProper : Text → Type 0
IsProper seg =
    (is_slash_free seg ≡ true)
    × (text_eq seg (text ".") ≡ false)
    × (text_eq seg (text "..") ≡ false)

push-IsWhole :
    (c : ℕ) (ss : List Text) → (c == slash) ≡ false → All IsWhole ss → All IsWhole (push_char c ss)
unfolding push_char
push-IsWhole c [] h k = (rw h refl, tt)
push-IsWhole c (s ∷ ss) h k = (rw h k.0, k.1)

-- What stands between slashes has none.
pub split-IsWhole : (s : Text) → All IsWhole (split_slash s)
unfolding split_slash
split-IsWhole [] = (refl, tt)
split-IsWhole (c ∷ s) = elim (Bool-cases (c == slash)) [
  | inl cut ↦ rw cut (refl, split-IsWhole s)
  | inr other ↦ rw other (push-IsWhole c (split_slash s) other (split-IsWhole s))
]

-- The parts of the path, joined by slashes, are the path.
join-push : (c : ℕ) (ss : List Text) → join_slash (push_char c ss) ≡ c ∷ join_slash ss
unfolding push_char join_slash
join-push c [] = refl
join-push c (s ∷ []) = refl
join-push c (s ∷ t ∷ ss) = refl

split_slash-cons : (s : Text) → (t : Text) × (ts : List Text) × (split_slash s ≡ t ∷ ts)
unfolding split_slash push_char
split_slash-cons [] = ([], [], refl)
split_slash-cons (c ∷ s) = elim (Bool-cases (c == slash)) [
  | inl cut ↦ ([], split_slash s, rw cut refl)
  | inr other ↦ (let (t, ts, e) = split_slash-cons s in (c ∷ t, ts, rw other (ap (push_char c) e)))
]

join-cut :
    (ss : List Text) (t : Text) (ts : List Text)
    → ss ≡ t ∷ ts
    → join_slash ([] ∷ ss) ≡ slash ∷ join_slash ss
unfolding join_slash
join-cut ss t ts e = rw e refl

pub join-split : (s : Text) → join_slash (split_slash s) ≡ s
unfolding split_slash join_slash
join-split [] = refl
join-split (c ∷ s) = elim (Bool-cases (c == slash)) [
  | inl cut ↦
      (let (t, ts, e) = split_slash-cons s in
        let is_slash : c ≡ slash = (==_iff c slash).0 cut in
        rw cut (join-cut (split_slash s) t ts e ∙ cc (join-split s, is_slash)))
  | inr other ↦ rw other (join-push c (split_slash s) ∙ ap (λ r. c ∷ r) (join-split s))
]

abbrev pub IsNonEmpty : List Text → Type 0
IsNonEmpty [] = ⊥
IsNonEmpty (s ∷ ss) = Unit

-- The removal of dot segments, as rules that may be applied anywhere: `.` goes; `..` goes with the name
-- before it, which is not the first part; `..` goes alone behind the first part, or as the first; and
-- without dots nothing changes.
pub data Resolves : List Text → List Text → Type 0 where
  no_dots : {segs : List Text} → All IsProper segs → Resolves segs segs
  stay :
      (xs ys : List Text) {out : List Text}
      → Resolves (xs ++ ys) out
      → Resolves (xs ++ text "." ∷ ys) out
  leave :
      (xs : List Text) (name : Text) (ys : List Text) {out : List Text}
      → IsNonEmpty xs
      → IsProper name
      → Resolves (xs ++ ys) out
      → Resolves (xs ++ name ∷ text ".." ∷ ys) out
  top :
      (xs ys : List Text) {out : List Text}
      → length xs ≤ 1
      → Resolves (xs ++ ys) out
      → Resolves (xs ++ text ".." ∷ ys) out

reverse_aux-All :
    (xs ys : List Text) → All IsProper xs → All IsProper ys → All IsProper (reverse_aux xs ys)
reverse_aux-All [] ys h k = k
reverse_aux-All (x ∷ xs) ys h k = reverse_aux-All xs (x ∷ ys) h.1 (h.0, k)

-- What is kept, in its order, and then the rest.
abbrev onward : List Text → List Text → List Text
onward kept segs = reverse_aux kept segs

moved :
    (kept segs : List Text) (out : List Text)
    → Resolves (reverse kept ++ segs) out
    → Resolves (onward kept segs) out
moved kept segs out h = subst (λ x. Resolves x out) (sym (reverse_aux-eq kept segs)) h

apart :
    (kept segs : List Text) (out : List Text)
    → Resolves (onward kept segs) out
    → Resolves (reverse kept ++ segs) out
apart kept segs out h = subst (λ x. Resolves x out) (reverse_aux-eq kept segs) h

reverse_aux-IsNonEmpty : (xs ys : List Text) → IsNonEmpty ys → IsNonEmpty (reverse_aux xs ys)
reverse_aux-IsNonEmpty [] ys h = h
reverse_aux-IsNonEmpty (x ∷ xs) ys h = reverse_aux-IsNonEmpty xs (x ∷ ys) tt

parent-Resolves :
    (kept segs out : List Text)
    → All IsProper kept
    → Resolves (onward (if ltb 1 (length kept) then pop_segment kept else kept) segs) out
    → Resolves (onward kept (text ".." ∷ segs)) out
unfolding pop_segment
parent-Resolves [] segs out p h = top [] segs (omega arith) h
parent-Resolves (k ∷ []) segs out p h = top (k ∷ []) segs (omega arith) h
parent-Resolves (k ∷ l ∷ kept) segs out p h =
    let deep : ltb 1 (length (k ∷ l ∷ kept)) ≡ true = ground arith in
    let h' : Resolves (onward (l ∷ kept) segs) out =
      subst (λ b. Resolves (onward (if b then l ∷ kept else k ∷ l ∷ kept) segs) out) deep h in
    moved (l ∷ kept) (k ∷ text ".." ∷ segs) out (
      leave (reverse (l ∷ kept)) k segs (reverse_aux-IsNonEmpty kept (l ∷ []) tt) p.0
        (apart (l ∷ kept) segs out h'))

keep-Resolves :
    (kept segs out : List Text) (seg : Text)
    → All IsProper kept
    → Resolves (onward (keep_segment kept seg) segs) out
    → Resolves (onward kept (seg ∷ segs)) out
unfolding keep_segment
keep-Resolves kept segs out seg p h = elim (Bool-cases (text_eq seg (text "."))) [
  | inl dot ↦
      (let h' : Resolves (onward kept segs) out = rw dot at h in
        subst (λ s. Resolves (onward kept (s ∷ segs)) out) (sym (text_eq_sound seg (text ".") dot))
          (moved kept (text "." ∷ segs) out (stay (reverse kept) segs (apart kept segs out h'))))
  | inr other ↦ elim (Bool-cases (text_eq seg (text ".."))) [
    | inl two ↦
        (let h' : Resolves (onward (if ltb 1 (length kept) then pop_segment kept else kept) segs)
              out =
            rw (other, two) at h in
          subst (λ s. Resolves (onward kept (s ∷ segs)) out)
            (sym (text_eq_sound seg (text "..") two)) (parent-Resolves kept segs out p h'))
    | inr name ↦ rw (other, name) at h
  ]
]

pop-IsProper : (kept : List Text) → All IsProper kept → All IsProper (pop_segment kept)
unfolding pop_segment
pop-IsProper [] h = tt
pop-IsProper (s ∷ ss) h = h.1

keep-IsProper :
    (kept : List Text) (seg : Text)
    → IsWhole seg
    → All IsProper kept
    → All IsProper (keep_segment kept seg)
unfolding keep_segment
keep-IsProper kept seg w h = elim (Bool-cases (text_eq seg (text "."))) [
  | inl dot ↦ rw dot h
  | inr other ↦ elim (Bool-cases (text_eq seg (text ".."))) [
    | inl up ↦ rw (other, up) (popped (ltb 1 (length kept)))
    | inr name ↦ rw (other, name) ((w, other, name), h)
  ]
]
  where
    popped : (b : Bool) → All IsProper (if b then pop_segment kept else kept)
    popped true = pop-IsProper kept h
    popped false = h

pub resolve-IsProper :
    (kept segs : List Text)
    → All IsWhole segs
    → All IsProper kept
    → All IsProper (resolve_segments kept segs)
unfolding resolve_segments
resolve-IsProper kept [] w h = reverse_aux-All kept [] h tt
resolve-IsProper kept (seg ∷ segs) w h =
    resolve-IsProper (keep_segment kept seg) segs w.1 (keep-IsProper kept seg w.0 h)

resolve-kept :
    (kept segs : List Text)
    → All IsWhole segs
    → All IsProper kept
    → Resolves (onward kept segs) (resolve_segments kept segs)
unfolding resolve_segments
resolve-kept kept [] w h = no_dots (reverse_aux-All kept [] h tt)
resolve-kept kept (seg ∷ segs) w h =
    keep-Resolves kept segs _ seg h
      (resolve-kept (keep_segment kept seg) segs w.1 (keep-IsProper kept seg w.0 h))

-- The loop over the parts of a path removes the dot segments.
pub resolve_segments-Resolves :
    (segs : List Text) → All IsWhole segs → Resolves segs (resolve_segments [] segs)
resolve_segments-Resolves segs w = resolve-kept [] segs w tt
