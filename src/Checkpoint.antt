-- ===== src/Checkpoint.antt =====
-- The checkpoint indexer (internal/packages/babylon/checkpoint).
pub mod Votes
pub mod Sync
