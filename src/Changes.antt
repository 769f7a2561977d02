-- ===== src/Changes.antt =====
-- Change control: apps/api/apps/changes.
pub mod Model
pub mod Transitions
pub mod Dispatch
pub mod Completion
pub mod Frame
pub mod Lifecycle
pub mod Effects
