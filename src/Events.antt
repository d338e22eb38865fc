-- ===== src/Events.antt =====
-- libs/shared/events.py: event envelopes, the in-memory topic bus and the inbox that makes event
-- handling idempotent.
pub mod Topic
pub mod Bus
pub mod Inbox
pub mod Envelope
pub mod Serial
pub mod Times
pub mod RoundTrip
mod Tests
pub use Envelope.{EventEnvelope, PublishedEvent}
