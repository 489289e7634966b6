-- ===== src/Subscription.antt =====
-- src/modules/subscription/: subscriptions, periods, usage and entitlement.
pub mod Domain
pub mod Store
pub mod Periods
pub mod Subscribers
pub mod Usage
pub mod Ending
pub mod Entitlement
pub mod Granting
pub mod Outcomes
pub mod Metering
mod Tests
pub mod Reads
