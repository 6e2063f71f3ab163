-- ===== src/Learning.antt =====
-- services/learning_service.py and the routers over it.
pub mod Subjects
pub mod Courses
pub mod Groups
pub mod Enrollments
pub mod Schedule
pub mod Analytics
pub mod Registry
pub mod Portal
