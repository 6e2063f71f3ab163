-- ===== src/Privacy.antt =====
-- services/privacy_service.py: the consent register and the data-subject requests.
pub mod Consents
pub mod Requests
pub mod Subjects
