-- ===== src/Hypotheses.antt =====
-- backend/app/engine/hypothesis_engine.py: interpretations of a case that cite its evidence.
pub mod Specs
pub mod Proposals
pub mod Confidence
pub mod Dropped
pub mod Generate
pub mod Answers
pub mod Citations
pub mod Merging
pub mod Ranking
pub mod Current
pub mod Backed
pub mod Computed
