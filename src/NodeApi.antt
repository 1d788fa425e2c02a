-- ===== src/NodeApi.antt =====
-- The node behind the indexers: internal/common/api and internal/common/parser for Cosmos chains.
pub mod Parser
pub mod Calls
