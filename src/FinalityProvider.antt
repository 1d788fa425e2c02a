-- ===== src/FinalityProvider.antt =====
-- The finality-provider indexer: internal/packages/babylon/finality-provider. For each height it
-- stores which active finality providers voted.
pub mod Votes
pub mod Status
pub mod Sync
pub mod Waits
