-- ===== src/Executions.antt =====
-- Executions of workflows: apps/api/apps/executions.
pub mod Model
pub mod Events
pub mod Steps
pub mod Completion
pub mod Watchdog
pub mod Finality
pub mod Outcomes
pub mod Endings
pub mod Recovery
pub mod History
pub mod Once
pub mod Completed
pub mod Ended
pub mod Sweep
