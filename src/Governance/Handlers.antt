-- ===== src/Governance/Handlers.antt =====
-- The handlers of the proposal types: council_manager.go, white_list_provider_manager.go,
-- gas_manager.go, chain_param_manager.go and node_manager.go of internal/executor/system/governance.
pub mod Types
pub mod Frames
pub mod Council
pub mod Providers
pub mod Params
pub mod Nodes
