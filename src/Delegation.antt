-- ===== src/Delegation.antt =====
-- Attenuation of capability tokens (raucle/capability.py).
mod Assert
mod Narrow
pub mod Link
unfoldable pub use Assert.{each_common, assert_narrowing}
pub use Assert.{subset_values}
unfoldable pub use Narrow.{
  narrow_agent_id, narrow_acting_for, narrow_intent, narrow_expiry, constraints_violation,
  attenuation_violation,
}
pub use Narrow.{
  tools_within, Broadening, other_tool, other_agent, outlives, precedes, broader_constraints,
  not_narrower,
}
