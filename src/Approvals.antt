-- ===== src/Approvals.antt =====
-- Approvals of steps and changes: apps/api/apps/approvals.
pub mod Model
pub mod Decisions
pub mod Resolution
pub mod Keeping
pub mod Final
pub mod Requests
pub mod Timeouts
pub mod History
pub mod Decided
