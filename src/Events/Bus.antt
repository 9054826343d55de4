-- ===== src/Events/Bus.antt =====
-- core/events/bus.go: events, subscriptions with their bounded queues, publishing and dead letters.
-- A subscription is named by its place in `made`, where none is ever removed; its id is one more.
-- Go ranges over the map of subscribers in no fixed order: the model takes the order of the
-- dictionary. A publication reads the clock once. A dead letter is published inside the publication
-- that caused it, and may cause others: this recursion is on fuel. A negative capacity, with which
-- `make` panics, is left out, and at capacity 0 no receiver waits.
mod Defs
mod Publish
mod Subscribe
pub mod Queues
pub mod Sending
pub mod Publishing
pub mod Subscribing
pub mod Reaching
unfoldable pub use Defs.*
unfoldable pub use Publish.*
unfoldable pub use Subscribe.*
