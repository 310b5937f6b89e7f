-- ===== src/Orchestrator.antt =====
-- The orchestrator between a caller and retrieval: what it emits, and when it asks again.
pub mod Packet
pub mod Emission
pub mod Task
pub mod Requests
pub mod Finish
pub mod Passes
pub mod Cutoff
pub mod StableIds
pub mod Markdown
pub mod Results
