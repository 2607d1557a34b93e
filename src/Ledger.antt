-- ===== src/Ledger.antt =====
-- The delegation ledger (`DelegationLedger` of raucle/capability.py): the file of registered tokens, the
-- containment holds that it carries, and the subtree under a token.
pub mod Defs
pub mod Holds
pub mod Register
pub mod Subtree
pub mod Reach
pub mod InForce
pub mod Chains
pub mod Covered
pub mod InStep
