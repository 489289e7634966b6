-- ===== src/Eventing.antt =====
-- src/platform/eventing: the event envelope, claim fencing, the reclaim budget, the outbox, its relay and the bus.
pub mod Envelope
pub mod Fencing
pub mod Reclaim
pub mod Outbox
pub mod Revival
pub mod Counts
pub mod Relay
pub mod Bus
pub mod Delivery
mod Tests
