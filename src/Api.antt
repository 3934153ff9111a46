-- ===== src/Api.antt =====
-- backend/app/api/routers and backend/app/auth: who calls, and what a request does to the database.
pub mod Requests
pub mod Auth
pub mod Schemas
pub mod Approvals
pub mod Cases
pub mod Evidence
pub mod Demo
pub mod Keeps
pub mod Serve
pub mod Served
pub mod Access
pub mod Rulings
pub mod Login
pub mod Reseed
pub mod Queue
pub mod Details
pub mod Sources
