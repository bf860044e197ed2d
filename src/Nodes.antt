-- ===== src/Nodes.antt =====
-- The node manager contract of internal/executor/system/framework/node_manager.go: the registered nodes,
-- their statuses, and the election of the validators.
pub mod Types
pub mod Manager
pub mod Election
pub mod Invariant
pub mod Moves
pub mod Calls
pub mod Registration
pub mod Reach
pub mod Bounds
mod Tests
