-- ===== src/Models/Jobs.antt =====
-- models/job.py, with the enumerations of schemas/job.py, to which CHECK constraints hold it.
use sirius_vkr.Prelude.{ℕ, String, Option}

-- `JobType` of schemas/job.py
pub data JobType : Type 0 where
  import anonymize : JobType

-- `JobStatus` of schemas/job.py
pub data JobStatus : Type 0 where
  pending processing done failed : JobStatus

-- core.jobs; `result` is the text of the JSON document.
pub record Job : Type 0 where
  pub id : ℕ
  pub type : JobType
  pub status : JobStatus
  pub progress : ℕ
  pub error : Option String
  pub result : Option String
  pub created_at : ℕ
  pub updated_at : ℕ
