-- ===== src/Policies.antt =====
-- Policies that decide on steps: apps/api/apps/policies.
pub mod Model
pub mod Conditions
pub mod Context
pub mod Evaluation
pub mod Steps
pub mod Reading
pub mod Ranked
pub mod Decisions
pub mod Follows
pub mod Admin
pub mod Unique
pub mod Rules
pub mod Valid
pub mod Sound
