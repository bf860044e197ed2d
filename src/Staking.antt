-- ===== src/Staking.antt =====
-- The staking contracts of internal/executor/system/framework: the staking pool, the liquid
-- staking token (an ERC-721 token) and the epoch manager.
pub mod Types
pub mod Rates
pub mod Records
pub mod Token
pub mod Epoch
pub mod Pool
pub mod Stake
pub mod Turn
mod Tests
