-- ===== src/Tests.antt =====
-- Runs of the modelled code on concrete inputs.
mod Samples
mod Extraction
mod RetryRuns
mod CandidateRuns
mod ChunkRuns
mod DaemonRuns
mod IdentityRuns
mod JobRuns
mod Decisions
mod Scenes
mod TaskRuns
