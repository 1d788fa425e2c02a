-- ===== src/Vote.antt =====
-- The vote indexer: internal/packages/consensus/voteindexer. For each block it stores whether each
-- validator of the block missed, signed or proposed it.
pub mod Votes
pub mod Sync
pub mod Rows
pub mod Once
pub mod Total
