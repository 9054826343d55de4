-- ===== src/Runtime.antt =====
-- core/runtime.go and core/bootstrap.go: the runtime that puts the parts together.
pub mod Defs
pub mod Boot
pub mod Serve
pub mod Steps
pub mod Quiet
pub mod Booting
pub mod Shifts
pub mod Stuck
pub mod Calls
pub mod Sound
pub mod Restarting
pub mod Draining
pub mod Abandoning
