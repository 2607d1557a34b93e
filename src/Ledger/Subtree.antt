-- ===== src/Ledger/Subtree.antt =====
-- `descendants` and `tokens_for_agent`.
use raucle.Prelude.{
  ℕ, zero, suc, Bool, false, Option, none, some, List, [], ◌∷◌, ◌++◌, if◌then◌else◌,
}
use raucle.Text.{Text, text_eq}
use raucle.Dict.{Dict}
use raucle.Wire.{dict_parent_id}
use raucle.Gate.{cited}
use raucle.Result.{Result, ok, ◌>>=◌}
use raucle.Ledger.Defs.{Row, Disk, DelegationLedger, ensure_loaded}

abbrev pub names_parent : Option Text → Text → Bool
names_parent none i = false
names_parent (some j) i = text_eq j i

-- `children_of.get(current, [])`: the rows that name a parent, in the order of the ledger.
abbrev pub children : Dict Row → Text → List Text
children [] i = []
children ((k, r) ∷ d) i =
    let rest = children d i in
    if names_parent (cited (dict_parent_id r.token)) i then k ∷ rest else rest

-- The queue, from its end: `pop` takes the first, and the children are appended one by one.
abbrev pub push : List Text → List Text → List Text
push [] queue = queue
push (c ∷ cs) queue = push cs (c ∷ queue)

-- The loop of `descendants`.
unfoldable pub walk_down : Dict Row → ℕ → List Text → List Text → Option (List Text)
walk_down d fuel out [] = some out
walk_down d zero out (i ∷ queue) = none
walk_down d (suc fuel) out (i ∷ queue) =
    walk_down d fuel (out ++ children d i) (push (children d i) queue)

-- The subtree under a token in the rows that are loaded.
unfoldable pub subtree : ℕ → Dict Row → Text → Option (List Text)
unfolding walk_down
subtree fuel d i = walk_down d fuel (i ∷ []) (i ∷ [])

-- `descendants`
unfoldable pub descendants : ℕ → DelegationLedger → Disk → Text → Result (Option (List Text))
unfolding subtree ensure_loaded
descendants fuel l d i = ensure_loaded l d >>= λ m. ok (subtree fuel m.records i)

abbrev delegated : Dict Row → Text → List Text
delegated [] agent = []
delegated ((k, r) ∷ d) agent =
    let rest = delegated d agent in if text_eq r.delegated_to_agent agent then k ∷ rest else rest

-- `tokens_for_agent`
unfoldable pub tokens_for_agent : DelegationLedger → Disk → Text → Result (List Text)
unfolding ensure_loaded
tokens_for_agent l d agent = ensure_loaded l d >>= λ m. ok (delegated m.records agent)
