-- ===== src/Fulfillment.antt =====
-- src/modules/fulfillment: the coordination of MARKET's orders and MOVE's jobs, and the money held for them.
pub mod Domain
pub mod Store
pub mod Payments
pub mod Service
pub mod Turn
pub mod Moves
pub mod History
pub mod Unreleased
pub mod Repeats
mod Tests
