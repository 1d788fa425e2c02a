-- ===== src/Indexer.antt =====
-- What the indexers of internal/packages share: internal/common.
pub mod Types
pub mod Tables
pub mod Fetch
pub mod Monikers
pub mod Validators
pub mod Calm
pub mod Infos
pub mod Start
pub mod Loop
pub mod Batch
