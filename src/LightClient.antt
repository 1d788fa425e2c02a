-- ===== src/LightClient.antt =====
-- The BTC light client indexer: internal/packages/babylon/btc-lightclient. For each message that
-- inserts BTC headers into Babylon it stores the reporter and how far the light client rolled.
pub mod Events
pub mod Rolls
