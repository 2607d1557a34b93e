-- ===== src/Issuance.antt =====
-- What the tokens that `CapabilityIssuer` makes are like: theorems on `mint` and `attenuate`.
mod Seals
pub mod Attenuated
pub mod Minted
pub mod Readable
pub mod Accepted
pub mod Bound
