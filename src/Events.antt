-- ===== src/Events.antt =====
-- core/events/bus.go: the event bus.
pub mod Topics
pub mod Bus
