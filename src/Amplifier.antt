-- ===== src/Amplifier.antt =====
-- The amplifier-verifier indexer (internal/packages/axelar/amplifier-verifier).
pub mod Statuses
pub mod Polls
pub mod Contracts
pub mod Tables
pub mod Sync
