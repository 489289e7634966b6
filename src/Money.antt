-- ===== src/Money.antt =====
-- src/modules/money: wallets, holds and the ledger.
pub mod Domain
pub mod Store
pub mod Service
pub mod Holds
pub mod Step
pub mod Run
pub mod Retry
pub mod Sweep
pub mod Stale
pub mod Ages
mod Tests
