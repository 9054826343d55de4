-- ===== src/Context.antt =====
-- core/context: the layered request context.
pub mod Priority
pub mod Layers
pub mod Session
pub mod Derive
pub mod Merge
pub mod Proto
