-- ===== src/Identity.antt =====
-- Whether an artifact is a duplicate of one that is archived.
pub mod Hashing
pub mod Overlap
pub mod Classify
pub mod Buckets
pub mod Best
