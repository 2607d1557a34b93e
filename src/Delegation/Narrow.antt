-- ===== src/Delegation/Narrow.antt =====
-- The rules of attenuation: `_narrow_agent_id`, `_narrow_acting_for`, `_narrow_intent`,
-- `_narrow_expiry`, and `_attenuation_violation`, which a gate applies to each link of a chain.
use raucle.Prelude.{
  Bool, true, not, ◌&&◌, ◌||◌, Option, none, some, List, [], ◌∷◌, ◌++◌, all, if◌then◌else◌,
}
use raucle.Prelude.Int.{ℤ, ◌+ℤ◌, ◌-ℤ◌, ltb_ℤ}
use raucle.Text.{Text, text, text_eq, starts_with, is_empty, mem_text}
use raucle.Platform.{Platform}
use raucle.Result.{
  Result, ok, err, bad_agent_id, wrong_agent_scope, retargeted_user, widened_tools, outlives_parent,
  ◌>>=◌, ◌>>◌, require,
}
use raucle.Constraints.{
  Constraints, normalise_constraints, merge_narrowing, constraints_eq, is_empty_constraints,
}
use raucle.Token.{Intent, Capability, is_agent_id, in_scope}
use raucle.Delegation.Assert.{assert_narrowing}

-- `if narrower_agent_id and narrower_agent_id != parent.agent_id`
abbrev agent_id_given : Capability → Text → Result Text
agent_id_given parent [] = ok parent.agent_id
agent_id_given parent (c ∷ s) = if text_eq (c ∷ s) parent.agent_id then ok (c ∷ s) else (do
  require (is_agent_id (c ∷ s)) bad_agent_id
  require (starts_with (parent.agent_id ++ text ".") (c ∷ s)) wrong_agent_scope
  ok (c ∷ s))

unfoldable pub narrow_agent_id : Capability → Option Text → Result Text
narrow_agent_id parent none = ok parent.agent_id
narrow_agent_id parent (some s) = agent_id_given parent s

unfoldable pub narrow_acting_for : Capability → Text → Result Text
narrow_acting_for parent acting_for =
    if not (is_empty parent.acting_for)
      && not (is_empty acting_for)
      && not (text_eq acting_for parent.acting_for)
    then err retargeted_user
    else ok (if is_empty acting_for then parent.acting_for else acting_for)

-- `set(intent["tools"]) <= set(parent_tools)`, where both are given.
abbrev pub tools_within : Option (List Text) → Option (List Text) → Bool
tools_within none tools = true
tools_within (some ps) none = true
tools_within (some ps) (some ts) = all (λ t. mem_text t ps) ts

-- The constraints of the child's intent, where both intents have some.
abbrev narrow_intent_constraints :
    Platform → Option Constraints → Option Constraints → Result (Option Constraints)
narrow_intent_constraints p none c = ok c
narrow_intent_constraints p (some pc) none = ok none
narrow_intent_constraints p (some pc) (some c) =
    if is_empty_constraints pc || is_empty_constraints c
    then ok (some c)
    else (do narrowed ← merge_narrowing p pc c; assert_narrowing pc narrowed; ok (some narrowed))

unfoldable pub narrow_intent : Platform → Capability → Option Intent → Result (Option Intent)
narrow_intent p parent none = ok parent.intent
narrow_intent p parent (some i) = elim parent.intent [
  | none ↦ ok (some i)
  | some pi ↦ (do
    require (tools_within pi.tools i.tools) widened_tools
    c ← narrow_intent_constraints p pi.constraints i.constraints
    ok (some (record i { constraints = c })))
]

abbrev ttl_of : Capability → ℤ → Option ℤ → ℤ
ttl_of parent now none = parent.expires_at -ℤ now
ttl_of parent now (some ttl) = ttl

unfoldable pub narrow_expiry : Capability → ℤ → Option ℤ → Result ℤ
narrow_expiry parent now ttl =
    let new_exp = now +ℤ ttl_of parent now ttl in
    if ltb_ℤ parent.expires_at new_exp then err outlives_parent else ok new_exp

-- The reasons of `_attenuation_violation`.
pub data Broadening : Type 0 where
  other_tool other_agent outlives precedes broader_constraints not_narrower : Broadening

-- The merge of the parent with the child has to leave the child as it is.
unfoldable pub constraints_violation : Platform → Constraints → Constraints → Option Broadening
constraints_violation p child parent = elim (merge_narrowing p parent child) [
  | err e ↦ some broader_constraints
  | ok merged ↦ elim (normalise_constraints p child) [
    | err e ↦ some not_narrower
    | ok own ↦ if constraints_eq merged own then none else some not_narrower
  ]
]

unfoldable pub attenuation_violation : Platform → Capability → Capability → Option Broadening
attenuation_violation p child parent =
    if not (text_eq child.tool parent.tool)
    then some other_tool
    else if not (in_scope parent.agent_id child.agent_id)
    then some other_agent
    else if ltb_ℤ parent.expires_at child.expires_at
    then some outlives
    else if ltb_ℤ child.not_before parent.not_before
    then some precedes
    else constraints_violation p child.constraints parent.constraints
