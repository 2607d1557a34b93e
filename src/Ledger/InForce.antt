-- ===== src/Ledger/InForce.antt =====
-- Which holds are in force: those whose marker is the last control row of their scope.
use mathlib.Core.Path.{subst}
use raucle.Prelude.{
  ◌≡◌, refl, sym, ◌⊎◌, inl, inr, Bool, true, false, not, List, [], ◌∷◌, All, In, keep_if,
  if◌then◌else◌,
}
use raucle.Ledger.Defs.{
  MarkerKind, containment_hold_active, containment_resume, other_kind, Marker, DelegationLedger,
}
use raucle.Ledger.Holds.{same_scope, put_hold, apply_marker, holds_after, is_hold, active_holds}

-- The marker is a hold, and no later row is about its scope.
abbrev pub InForce : Marker → List Marker → Type 0
InForce m [] = ⊥
InForce m (x ∷ xs) =
    ((x ≡ m) × (m.kind ≡ containment_hold_active) × All (λ y. same_scope y m ≡ false) xs)
    ⊎ InForce m xs

put_hold-own : (m : Marker) (ns : List Marker) → In m (put_hold m ns)
put_hold-own m [] = inl refl
put_hold-own m (n ∷ ns) = by_scope (same_scope m n) (put_hold-own m ns)
  where
    by_scope : (b : Bool) → In m (put_hold m ns) → In m (if b then m ∷ ns else n ∷ put_hold m ns)
    by_scope true h = inl refl
    by_scope false h = inr h

put_hold-In :
    (x m : Marker) (ns : List Marker) → same_scope x m ≡ false → In m ns → In m (put_hold x ns)
put_hold-In x m [] h i = absurd i
put_hold-In x m (n ∷ ns) h (inl same) =
    let off : same_scope x n ≡ false = rw (← same) h in rw off (inl same)
put_hold-In x m (n ∷ ns) h (inr i) = by_scope (same_scope x n) (put_hold-In x m ns h i)
  where
    by_scope : (b : Bool) → In m (put_hold x ns) → In m (if b then x ∷ ns else n ∷ put_hold x ns)
    by_scope true h = inr i
    by_scope false h = inr h

keep_if-In :
    {A : Type 0} (f : A → Bool) (x : A) (xs : List A) → f x ≡ true → In x xs → In x (keep_if f xs)
keep_if-In f x [] h i = absurd i
keep_if-In f x (y ∷ xs) h (inl same) = let on : f y ≡ true = rw (← same) h in rw on (inl same)
keep_if-In f x (y ∷ xs) h (inr i) = by_test (f y) (keep_if-In f x xs h i)
  where
    by_test : (b : Bool) → In x (keep_if f xs) → In x (if b then y ∷ keep_if f xs else keep_if f xs)
    by_test true h = inr h
    by_test false h = h

apply_marker-In :
    (ns : List Marker) (x m : Marker) (k : MarkerKind)
    → same_scope x m ≡ false
    → In m ns
    → In m (apply_marker ns x k)
apply_marker-In ns x m containment_hold_active h i = put_hold-In x m ns h i
apply_marker-In ns x m containment_resume h i =
    keep_if-In (λ n. not (same_scope x n)) m ns (rw h refl) i
apply_marker-In ns x m other_kind h i = i

holds_after-In :
    (ns : List Marker) (m : Marker) (xs : List Marker)
    → All (λ y. same_scope y m ≡ false) xs
    → In m ns
    → In m (holds_after ns xs)
unfolding holds_after
holds_after-In ns m [] h i = i
holds_after-In ns m (x ∷ xs) (off, h) i =
    holds_after-In (apply_marker ns x x.kind) m xs h (apply_marker-In ns x m x.kind off i)

holds_after-InForce :
    (ns : List Marker) (m : Marker) (xs : List Marker)
    → InForce m xs
    → In m (holds_after ns xs) × (m.kind ≡ containment_hold_active)
unfolding holds_after
holds_after-InForce ns m [] h = absurd h
holds_after-InForce ns m (x ∷ xs) (inl (same, kind, later)) =
    let own : In m (apply_marker ns m m.kind) =
      subst (λ k. In m (apply_marker ns m k)) (sym kind) (put_hold-own m ns) in
    let put : In m (apply_marker ns x x.kind) =
      subst (λ y. In m (apply_marker ns y y.kind)) (sym same) own in
    (holds_after-In (apply_marker ns x x.kind) m xs later put, kind)
holds_after-InForce ns m (x ∷ xs) (inr h) = holds_after-InForce (apply_marker ns x x.kind) m xs h

pub active_holds-InForce :
    (l : DelegationLedger) (m : Marker) → InForce m l.control_rows → In m (active_holds l)
unfolding active_holds
active_holds-InForce l m h =
    let (i, kind) = holds_after-InForce [] m l.control_rows h in
    keep_if-In (λ n. is_hold n.kind) m (holds_after [] l.control_rows) (rw kind refl) i
