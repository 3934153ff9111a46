-- ===== src/Gate.antt =====
-- Across backend/app/engine, tools and approvals: which actions may be carried out without a human.
pub mod Licence
pub mod Proposed
pub mod Decided
pub mod Writes
pub mod Cycle
pub mod Ruled
