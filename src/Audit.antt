-- ===== src/Audit.antt =====
-- The audit log (raucle/audit.py): a hash chain of events with signed checkpoints, and its verifier.
pub mod Merkle
pub mod Sink
pub mod Report
pub mod Records
pub mod Verify
pub mod Rounds
pub mod Life
pub mod Resume
pub mod Signed
pub mod Agrees
pub mod Honest
mod Faults
pub mod Linked
pub mod Reading
pub mod Tamper
