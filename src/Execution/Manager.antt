-- ===== src/Execution/Manager.antt =====
-- core/execution/manager.go: the execution manager, by the parts of its work.
pub mod State
pub mod Submit
pub mod Submitting
pub mod Overshooting
pub mod Cancel
pub mod Schedule
pub mod Attempts
pub mod Run
pub mod Streams
pub mod Batch
pub mod Retrying
pub mod Answers
pub mod Outcome
pub mod Cancelling
pub mod Slots
pub mod Dispatching
pub mod System
