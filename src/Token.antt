-- ===== src/Token.antt =====
-- The native token contract of internal/executor/system/token/axc.go.
pub mod Axc
pub mod Laws
pub mod Supply
mod Tests
