-- ===== src/Audit/Merkle.antt =====
-- `_merkle_root`: the levels of the tree, with the last hash paired with itself where it is alone.
use raucle.Prelude.{ℕ, zero, suc, Option, none, some, List, [], ◌∷◌, ◌++◌, length}
use raucle.Text.{Text}
use raucle.Platform.{Platform, Bytes}
use raucle.Result.{Result, ok, err, bad_hex, ◌>>=◌}

-- `[bytes.fromhex(h) for h in leaf_hashes]`
abbrev pub from_option : Option Bytes → Result Bytes
from_option none = err bad_hex
from_option (some b) = ok b

unfoldable pub decode_leaves : Platform → List Text → Result (List Bytes)
decode_leaves p [] = ok []
decode_leaves p (h ∷ hs) =
    from_option (p.from_hex h) >>= λ b. decode_leaves p hs >>= λ bs. ok (b ∷ bs)

-- One round of the loop.
unfoldable pub pair_up : Platform → List Bytes → List Bytes
pair_up p [] = []
pair_up p (a ∷ []) = p.sha256 (a ++ a) ∷ []
pair_up p (a ∷ b ∷ level) = p.sha256 (a ++ b) ∷ pair_up p level

-- `while len(level) > 1`, and the hash at the end; no level is empty.
unfoldable pub reduce : Platform → ℕ → List Bytes → Bytes
unfolding pair_up
reduce p fuel [] = []
reduce p fuel (a ∷ []) = a
reduce p zero (a ∷ b ∷ level) = a
reduce p (suc fuel) (a ∷ b ∷ level) = reduce p fuel (pair_up p (a ∷ b ∷ level))

abbrev root_of : Platform → List Text → List Bytes → Text
root_of p leaves level = p.to_hex (reduce p (length leaves) level)

unfoldable pub merkle_root : Platform → List Text → Result Text
unfolding decode_leaves reduce
merkle_root p [] = ok (p.sha256_hex [])
merkle_root p (h ∷ hs) = decode_leaves p (h ∷ hs) >>= λ level. ok (root_of p (h ∷ hs) level)
