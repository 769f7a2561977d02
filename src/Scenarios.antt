-- ===== src/Scenarios.antt =====
-- Concrete databases and calls, in the manner of the tests of apps/api/apps, on which the theorems
-- are applied.
pub mod Executions
pub mod Fleet
pub mod Changes
pub mod Approvals
pub mod Policies
pub mod Audit
pub mod Artifacts
pub mod Workflows
