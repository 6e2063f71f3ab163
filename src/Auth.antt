-- ===== src/Auth.antt =====
-- services/auth_service.py, api/deps.py and the routers api/v1/auth.py and api/v1/users.py.
pub mod Roles
pub mod Service
pub mod Guards
pub mod Routes
