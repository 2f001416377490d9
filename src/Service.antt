-- ===== src/Service.antt =====
-- backend/internal/service
pub mod Audit
pub mod PermissionService
pub mod Tokens
pub mod Login
pub mod Refresh
pub mod UserService
