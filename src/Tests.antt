-- ===== src/Tests.antt =====
-- The theorems at concrete inputs.
pub mod Histories
pub mod Credentials
pub mod Limits
pub mod Permissions
pub mod Requests
pub mod Scans
pub mod Starts
