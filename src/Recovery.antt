-- ===== src/Recovery.antt =====
-- backend/app/engine/recovery_catalog.py: the remedies of a category, in the order in which they
-- are proposed.
pub mod Catalog
pub mod Gates
