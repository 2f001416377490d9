-- ===== src/Repository.antt =====
-- backend/internal/repository: every statement of the program. A `Where` clause is a test on a row,
-- a `Set` clause a change of it; constraints are those of backend/migrations.
pub mod Finds
pub mod Sessions
pub mod Users
pub mod Permissions
pub mod Audit
pub mod Steps
pub mod Runs
