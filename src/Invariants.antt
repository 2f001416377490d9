-- ===== src/Invariants.antt =====
-- What every history of operations respects, by induction on its steps.
pub mod AuditTrail
pub mod SessionTable
pub mod Revocation
pub mod DeadToken
pub mod Lifecycle
pub mod AccountTable
