-- ===== src/Execution.antt =====
-- core/execution: the execution engine.
pub mod Types
pub mod Retry
pub mod Registry
pub mod Scheduler
pub mod Manager
