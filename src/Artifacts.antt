-- ===== src/Artifacts.antt =====
-- Artifacts that runners upload: apps/api/apps/artifacts.
pub mod Model
pub mod Names
pub mod Checks
pub mod Upload
pub mod SafeNames
pub mod Quotas
pub mod Stored
pub mod Limits
pub mod Tokens
pub mod Completeness
pub mod Complete
