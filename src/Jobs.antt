-- ===== src/Jobs.antt =====
-- services/job_service.py, queue/publisher.py and the routers api/v1/jobs.py and api/v1/data.py.
pub mod Queue
pub mod Service
pub mod Upload
