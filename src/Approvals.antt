-- ===== src/Approvals.antt =====
-- The approval manager (raucle/approvals.py): requests for a human decision on an escalated call.
mod Defs
pub mod Edges
pub mod Runs
pub use Defs.*
unfoldable pub use Defs.{
  args_hash_of, create_request, get_request, decide, consume_error, consume, pending_requests,
}
