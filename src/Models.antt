-- ===== src/Models.antt =====
-- The ORM models (backend/app/models): one record for each mapped class, a column a field.
-- A UUID is a number that is only compared, an instant is a number of seconds, and a text column
-- under a CHECK constraint is the data type of the values that the constraint allows.
pub mod Access
pub mod People
pub mod Learning
pub mod Vault
pub mod Jobs
