-- ===== src/Extension.antt =====
-- The vote-extension indexer: internal/packages/consensus/veindexer, and the codec of
-- internal/helper/sdk/vote_extension_codec.go. A proposal carries the extended commit of the block
-- before it as its first transaction.
pub mod Codec
pub mod Votes
pub mod Sync
pub mod Rows
pub mod Once
pub mod Total
