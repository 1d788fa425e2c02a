-- ===== src/Examples.antt =====
-- Concrete databases, chains and runs: tests, and the theorems at inputs that meet their hypotheses.
pub mod Database
pub mod VoteRuns
pub mod ExtensionRuns
mod Advances
mod StartRuns
mod InfoRuns
mod RetentionRuns
mod FinalityRuns
mod LightClientRuns
mod CovenantDatabase
mod CovenantRuns
mod CovenantBatches
mod CheckpointRuns
mod NodeRuns
mod UptimeChain
mod UptimeRuns
mod HealthRuns
mod AmplifierRuns
