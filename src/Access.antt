-- ===== src/Access.antt =====
-- The whitelist contract of internal/executor/system/access/whitelist.go: which providers vouch for
-- which users. Addresses are numbers; events are not modelled.
pub mod Whitelist
pub mod Invariant
pub mod Providers
pub mod Reach
mod Tests
