-- ===== src/Models.antt =====
-- The rows and enumerations of backend/app/models and the JSON that their columns hold.
pub mod Enums
pub mod Float
pub mod Json
pub mod Rows
