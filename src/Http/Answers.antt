-- ===== src/Http/Answers.antt =====
-- The status codes of handlers: backend/internal, backend/middleware, backend/routes/routes.go.
pub mod Base
pub mod Sessions
pub mod Users
pub mod Permissions
pub mod Statuses
pub mod Calls
pub mod Reasons
pub mod Total
pub mod Requests
