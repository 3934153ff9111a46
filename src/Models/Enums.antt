-- ===== src/Models/Enums.antt =====
-- backend/app/models/enums.py
mod Evidence
mod Cases
mod Actions
pub use Evidence.*
pub use Cases.*
pub use Actions.*
