-- ===== src/Chunking.antt =====
-- How texts are cut: into units and chunks, into windows of paragraphs, and into terms.
pub mod Units
pub mod Terms
pub mod Windows
pub mod Coverage
pub mod Spans
pub mod Ngrams
