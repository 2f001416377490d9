-- ===== src/Cache.antt =====
-- backend/cache: what the program keeps in Redis. Every key has the configured prefix.
pub mod RateLimit
pub mod PermissionCache
pub mod LastLoginStore
