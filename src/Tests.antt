-- ===== src/Tests.antt =====
-- Runs of the model, and each theorem applied to tokens, calls and gates that are written out.
mod Toy
mod Runs
mod Escapes
mod Witnesses
mod AuditRuns
mod AuditWitnesses
mod ApprovalWitnesses
mod LedgerWitnesses
mod TransparencyWitnesses
