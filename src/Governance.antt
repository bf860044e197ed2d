-- ===== src/Governance.antt =====
-- The governance contract of internal/executor/system/governance: proposals of the council members,
-- their votes, and what is executed when a proposal is approved.
pub mod Types
pub mod Strategy
pub mod Members
pub mod Board
pub mod Laws
pub mod Frame
pub mod Overdue
pub mod Voting
pub mod Proposing
pub mod Calls
pub mod Votes
pub mod Runs
pub mod Handlers
pub mod Pending
mod Tests
