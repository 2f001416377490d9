-- ===== src/Http/Runs.antt =====
-- Requests as runs of steps of the tables: backend/internal, backend/middleware, backend/routes/routes.go.
pub mod Base
pub mod Sessions
pub mod Users
pub mod Permissions
pub mod Requests
