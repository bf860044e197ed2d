-- ===== src/SmartAccount.antt =====
-- The smart accounts of internal/executor/system/saccount.
pub mod Nonces
mod Tests
