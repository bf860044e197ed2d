-- ===== src/Ledger.antt =====
-- The state ledger of internal/ledger: accounts with their caches, the journal of changes, and
-- snapshots that a transaction can be reverted to.
pub mod Types
pub mod Access
pub mod Account
pub mod Journal
pub mod Operations
pub mod Finalise
pub mod World
mod Tests
