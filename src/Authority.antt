-- ===== src/Authority.antt =====
-- What a decision of the gate means: theorems on raucle/capability.py.
mod Refusals
mod Walks
pub mod Grant
pub mod Inherited
pub mod Lineage
pub mod Proven
pub mod Revoked
pub mod Returns
pub mod Attribution
