-- ===== src/Platform.antt =====
-- src/platform: errors, identifiers, texts, the audit trail, the undo journal, the unit of work.
pub mod Errors
pub mod Ids
pub mod Texts
pub mod Audit
pub mod Journal
pub mod UnitOfWork
pub mod RateLimit
mod Tests
