-- ===== src/Workflows.antt =====
-- Workflow definitions: apps/api/apps/workflows.
pub mod Model
pub mod Values
pub mod Paths
pub mod Checks
pub mod Definitions
pub mod Valid
pub mod Repeats
pub mod Accepted
pub mod Publication
pub mod Published
pub mod Reviews
