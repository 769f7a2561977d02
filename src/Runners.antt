-- ===== src/Runners.antt =====
-- Runner fleet: apps/api/apps/runners.
pub mod Model
pub mod Fleet
pub mod Liveness
pub mod Registration
pub mod Activation
pub mod Issued
pub mod Routing
pub mod Scheduling
pub mod Limits
pub mod Sweep
pub mod Claims
pub mod Afterwards
pub mod Routes
pub mod Admission
pub mod Revocation
