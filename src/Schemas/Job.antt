-- ===== src/Schemas/Job.antt =====
-- schemas/job.py; the job's type and status stand in Models/Jobs.antt.
use sirius_vkr.Prelude.{
  ℕ, Bool, false, not, String, Option, none, some, str_eq, is_some, if◌then◌else◌,
}
use sirius_vkr.Models.Jobs.{JobType, JobStatus, import}

pub data AnonymizeMode : Type 0 where
  pseudonymize anonymize : AnonymizeMode

pub data Dataset : Type 0 where
  students guardians : Dataset

pub record JobPayload : Type 0 where
  pub file_path : Option String
  pub dataset_id : Option String
  pub mode : Option AnonymizeMode
  pub dataset : Option Dataset

pub record JobCreate : Type 0 where
  pub type : JobType
  pub payload : JobPayload

-- The truth value of an optional string.
unfoldable pub truthy : Option String → Bool
truthy none = false
truthy (some s) = not (str_eq s "")

-- The two tests of `_validate_payload`, of which each type meets its own.
unfoldable pub payload_fits : JobType → JobPayload → Bool
unfolding truthy
payload_fits import payload = truthy payload.file_path
payload_fits JobType.anonymize payload = is_some payload.mode

-- `_validate_payload`: `none` is the ValueError.
unfoldable pub validate_payload : JobCreate → Option JobCreate
unfolding payload_fits
validate_payload body = if payload_fits body.type body.payload then some body else none

pub record JobResponse : Type 0 where
  pub id : ℕ
  pub type : JobType
  pub status : JobStatus
  pub progress : ℕ
  pub error : Option String
  pub result : Option String
  pub created_at : ℕ
  pub updated_at : ℕ

pub record JobStreamMessage : Type 0 where
  pub job_id : ℕ
  pub type : JobType
  pub payload : JobPayload
  pub created_at : ℕ
