-- ===== src/Reconciliation.antt =====
-- backend/app/reconciliation: evidence comes in, and a case's timeline and flags follow from it.
pub mod Rules
pub mod Ingest
pub mod Redelivery
pub mod Timeline
pub mod Grouping
pub mod Detect
pub mod Uncertainty
