-- ===== src/Candidates.antt =====
-- Candidates of the extraction: their validation, the gate before promotion, relations, attribution.
pub mod Json
pub mod Components
pub mod Links
pub mod Attribution
pub mod Validate
pub mod Gate
pub mod Agreement
pub mod Ready
pub mod Hard
pub mod Overflow
pub mod Status
pub mod Passing
pub mod References
pub mod Relations
pub mod Projection
