-- ===== src/Token.antt =====
-- Capability tokens (raucle/capability.py): the record, its signed body and its identifiers.
mod Defs
mod Identifiers
pub mod Scope
pub mod Grammar
pub use Defs.{
  Intent, Capability, to_items, to_fields, list_value, dict_value, option_value, given,
  kind_members, constraints_fields, intent_members, intent_value, acting_member, body_members,
}
unfoldable pub use Defs.{constraints_value, body, signed_material, token_id_of}
pub use Identifiers.{at_end}
unfoldable pub use Identifiers.{id_tail, is_agent_id, is_principal, is_tool, in_scope}
