-- ===== src/Text/Laws.antt =====
-- The equality test decides equality, and prefixes compose.
use raucle.Prelude.{
  ◌≡◌, refl, ◌↔◌, true, false, List, [], ◌∷◌, ◌++◌, arith, ◌==◌, ==_iff, ==_refl, &&_true,
}
use raucle.Text.Defs.{Text, text_eq, starts_with, texts_eq}

pub text_eq_sound : (s t : Text) → text_eq s t ≡ true → s ≡ t
unfolding text_eq
text_eq_sound [] [] h = refl
text_eq_sound [] (b ∷ t) h = cc
text_eq_sound (a ∷ s) [] h = cc
text_eq_sound (a ∷ s) (b ∷ t) h =
    let (p, q) = &&_true (a == b) (text_eq s t) h in cc ((==_iff a b).0 p, text_eq_sound s t q)

pub text_eq_refl : (s : Text) → text_eq s s ≡ true
unfolding text_eq
text_eq_refl [] = refl
text_eq_refl (a ∷ s) = rw (==_refl a) (text_eq_refl s)

pub text_eq_iff : (s t : Text) → (text_eq s t ≡ true) ↔ (s ≡ t)
text_eq_iff s t = (text_eq_sound s t, λ e. rw e (text_eq_refl t))

pub texts_eq_sound : (ss ts : List Text) → texts_eq ss ts ≡ true → ss ≡ ts
texts_eq_sound [] [] h = refl
texts_eq_sound [] (t ∷ ts) h = cc
texts_eq_sound (s ∷ ss) [] h = cc
texts_eq_sound (s ∷ ss) (t ∷ ts) h =
    let (p, q) = &&_true (text_eq s t) (texts_eq ss ts) h in
    cc (text_eq_sound s t p, texts_eq_sound ss ts q)

pub starts_with_refl : (s : Text) → starts_with s s ≡ true
unfolding starts_with
starts_with_refl [] = refl
starts_with_refl (a ∷ s) = rw (==_refl a) (starts_with_refl s)

-- What has a prefix is the prefix and a rest.
pub starts_with-rest : (p s : Text) → starts_with p s ≡ true → (rest : Text) × (s ≡ p ++ rest)
unfolding starts_with
starts_with-rest [] s h = (s, refl)
starts_with-rest (a ∷ p) [] h = cc
starts_with-rest (a ∷ p) (b ∷ s) h =
    let (h₀, h₁) = &&_true (a == b) (starts_with p s) h in
    let (rest, e) = starts_with-rest p s h₁ in let same : a ≡ b = (==_iff a b).0 h₀ in (rest, cc)

-- A prefix of a prefix is a prefix.
pub starts_with_trans :
    (p q s : Text) → starts_with p q ≡ true → starts_with q s ≡ true → starts_with p s ≡ true
unfolding starts_with
starts_with_trans [] q s h k = refl
starts_with_trans (a ∷ p) [] s h k = cc
starts_with_trans (a ∷ p) (b ∷ q) [] h k = cc
starts_with_trans (a ∷ p) (b ∷ q) (c ∷ s) h k =
    let (h₀, h₁) = &&_true (a == b) (starts_with p q) h in
    let (k₀, k₁) = &&_true (b == c) (starts_with q s) k in
    ground (arith, starts_with_trans p q s h₁ k₁)

pub starts_with-append : (s t : Text) → starts_with s (s ++ t) ≡ true
unfolding starts_with
starts_with-append [] t = refl
starts_with-append (a ∷ s) t = rw (==_refl a) (starts_with-append s t)

-- Two prefixes of one text are comparable.
pub starts_with_total :
    (p q s : Text)
    → starts_with p s ≡ true
    → starts_with q s ≡ true
    → starts_with p q ≡ false
    → starts_with q p ≡ true
unfolding starts_with
starts_with_total [] q s h k n = cc
starts_with_total (a ∷ p) [] s h k n = refl
starts_with_total (a ∷ p) (b ∷ q) [] h k n = cc
starts_with_total (a ∷ p) (b ∷ q) (c ∷ s) h k n =
    let (h₀, h₁) = &&_true (a == c) (starts_with p s) h in
    let (k₀, k₁) = &&_true (b == c) (starts_with q s) k in
    ground (arith, starts_with_total p q s h₁ k₁)
