-- ===== src/Seed.antt =====
-- backend/app/seed/synthetic_data.py: the demonstration data set.
pub mod Closure
pub mod Facts
pub mod Early
pub mod Late
pub mod All
pub mod Keeps
pub mod Licensed
