-- ===== src/Token/Scope.antt =====
-- The scope test on agent ids (`_agent_in_scope`): what it accepts, and that it orders the ids.
use raucle.Prelude.{◌≡◌, true, ◌++◌, arith, ◌⊎◌, inl, inr, ◌↔◌, Bool-cases}
use raucle.Text.{
  Text, text, text_eq, text_eq_sound, text_eq_refl, starts_with, starts_with_trans,
  starts_with-append, starts_with-rest,
}
use raucle.Token.Identifiers.{in_scope}

in_scope-cases :
    (scope a : Text)
    → in_scope scope a ≡ true
    → (a ≡ scope) ⊎ (starts_with (scope ++ text ".") a ≡ true)
unfolding in_scope
in_scope-cases scope a h = elim (Bool-cases (text_eq a scope)) [
  | inl same ↦ inl (text_eq_sound a scope same)
  | inr other ↦ inr (rw other at h)
]

in_scope-of_prefix :
    (scope a : Text) → starts_with (scope ++ text ".") a ≡ true → in_scope scope a ≡ true
unfolding in_scope
in_scope-of_prefix scope a h = ground arith

pub in_scope_refl : (a : Text) → in_scope a a ≡ true
unfolding in_scope
in_scope_refl a = rw (text_eq_refl a)

pub in_scope_trans :
    (a b c : Text) → in_scope a b ≡ true → in_scope b c ≡ true → in_scope a c ≡ true
in_scope_trans a b c h k = elim (in_scope-cases a b h) [
  | inl e ↦ rw e at k
  | inr q ↦ elim (in_scope-cases b c k) [
    | inl e ↦ rw e h
    | inr r ↦ in_scope-of_prefix a c (
        starts_with_trans (a ++ text ".") b c q
          (starts_with_trans b (b ++ text ".") c (starts_with-append b (text ".")) r))
  ]
]

-- An agent id is in a scope exactly when it is the scope itself, or the scope followed by a dot and some
-- text: an id that only begins with the scope's letters is outside.
pub in_scope_iff :
    (scope a : Text)
    → (in_scope scope a ≡ true)
      ↔ ((a ≡ scope) ⊎ ((rest : Text) × (a ≡ (scope ++ text ".") ++ rest)))
in_scope_iff scope a = (forth, back)
  where
    forth :
        in_scope scope a ≡ true → (a ≡ scope) ⊎ ((rest : Text) × (a ≡ (scope ++ text ".") ++ rest))
    forth h = elim (in_scope-cases scope a h) [
      | inl e ↦ inl e
      | inr q ↦ inr (starts_with-rest (scope ++ text ".") a q)
    ]

    back :
        (a ≡ scope) ⊎ ((rest : Text) × (a ≡ (scope ++ text ".") ++ rest)) → in_scope scope a ≡ true
    back (inl e) = rw e (in_scope_refl scope)
    back (inr (rest, e)) =
        in_scope-of_prefix scope a (rw e (starts_with-append (scope ++ text ".") rest))
