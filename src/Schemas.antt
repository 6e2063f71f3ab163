-- ===== src/Schemas.antt =====
-- The DTOs (backend/app/schemas): one record for each Pydantic model, and the validators.
pub mod Auth
pub mod Learning
pub mod Privacy
pub mod Job
