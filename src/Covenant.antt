-- ===== src/Covenant.antt =====
-- The covenant-committee indexer (internal/packages/babylon/covenant-committee).
pub mod Events
pub mod Rows
pub mod Heights
pub mod Channels
pub mod Insert
pub mod Committee
pub mod Sync
