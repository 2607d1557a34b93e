-- ===== src/Audit/Rounds.antt =====
-- The rounds of `_merkle_root`: the loop ends with one hash, and its fuel is never used up.
use raucle.Prelude.{ℕ, zero, suc, ◌≡◌, sym, ap, ◌∙◌, ◌≤◌, List, [], ◌∷◌, ◌++◌, length, arith}
use raucle.Text.{Text}
use raucle.Platform.{Platform, Bytes}
use raucle.Result.{ok, >>=-eq-ok, ok-injective}
use raucle.Audit.Merkle.{from_option, decode_leaves, pair_up, reduce, merkle_root}

-- The `while` loop, round by round, from a level of the tree to the hash at its top.
pub data Climbs (p : Platform) : List Bytes → Bytes → Type 0 where
  top : (a : Bytes) → Climbs p (a ∷ []) a
  up :
      {a b r : Bytes} {level : List Bytes}
      → Climbs p (pair_up p (a ∷ b ∷ level)) r
      → Climbs p (a ∷ b ∷ level) r

-- A level has no more hashes than the one below it, and is not empty.
pair_up-length : (p : Platform) (level : List Bytes) → length (pair_up p level) ≤ length level
unfolding pair_up
pair_up-length p [] = omega arith
pair_up-length p (a ∷ []) = omega arith
pair_up-length p (a ∷ b ∷ level) = let less = pair_up-length p level in omega arith

reduce-Climbs :
    (p : Platform) (fuel : ℕ) (a : Bytes) (level : List Bytes)
    → length level ≤ fuel
    → Climbs p (a ∷ level) (reduce p fuel (a ∷ level))
unfolding reduce pair_up
reduce-Climbs p fuel a [] h = top a
reduce-Climbs p zero a (b ∷ level) h = absurd (omega arith)
reduce-Climbs p (suc fuel) a (b ∷ level) h =
    let less = pair_up-length p level in
    up (reduce-Climbs p fuel (p.sha256 (a ++ b)) (pair_up p level) (omega arith))

decode_leaves-length :
    (p : Platform) (hs : List Text) (level : List Bytes)
    → decode_leaves p hs ≡ ok level
    → length level ≡ length hs
unfolding decode_leaves
decode_leaves-length p [] level h = sym (ap length (ok-injective h))
decode_leaves-length p (x ∷ hs) level h =
    let (b, _, h1) = >>=-eq-ok (from_option (p.from_hex x)) _ h in
    let (bs, e, h2) = >>=-eq-ok (decode_leaves p hs) _ h1 in
    sym (ap length (ok-injective h2)) ∙ ap suc (decode_leaves-length p hs bs e)

-- The Merkle root of a chain with events is the hash at the top of the tree: the loop over the levels,
-- from the decoded hashes of all events, ends there, and the root is its hexadecimal text.
pub merkle_root-Climbs :
    (p : Platform) (h : Text) (hs : List Text) (root : Text)
    → merkle_root p (h ∷ hs) ≡ ok root
    → (level : List Bytes) × (decode_leaves p (h ∷ hs) ≡ ok level)
      × (r : Bytes) × Climbs p level r
      × (root ≡ p.to_hex r)
unfolding merkle_root
merkle_root-Climbs p h hs root e =
    let (level, d, e1) = >>=-eq-ok (decode_leaves p (h ∷ hs)) _ e in
    let r = reduce p (length (h ∷ hs)) level in
    (level, d, r, climbs level (decode_leaves-length p (h ∷ hs) level d), sym (ok-injective e1))
  where
    climbs :
        (level : List Bytes)
        → length level ≡ length (h ∷ hs)
        → Climbs p level (reduce p (length (h ∷ hs)) level)
    climbs [] same = absurd (omega arith)
    climbs (a ∷ level) same = reduce-Climbs p (length (h ∷ hs)) a level (omega arith)
