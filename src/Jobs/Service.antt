-- ===== src/Jobs/Service.antt =====
-- create_job of services/job_service.py, and get_job of api/v1/jobs.py.
pub mod Delivery
pub mod Sequence
pub mod Lost
use sirius_vkr.Prelude.{ℕ, Option, none, List, [], ◌∷◌, ◌++◌, ◌==◌}
use sirius_vkr.Sql.{first}
use sirius_vkr.Models.Jobs.{Job, JobType, pending}
use sirius_vkr.Database.{Db}
use sirius_vkr.Exec.{Exec, http_exception, pure, or_raise, ◌>>=◌, ◌>>◌}
use sirius_vkr.Session.{Session, commit, query, execute, uuid4, now}
use sirius_vkr.Schemas.Job.{JobCreate, JobStreamMessage}
use sirius_vkr.Jobs.Queue.{World, in_session, publish_job}

-- `Job(type=body.type.value, status="pending", progress=0)` with the column defaults.
unfoldable pub new_job : ℕ → ℕ → JobType → Job
new_job k at type = record {
  id = k;
  type = type;
  status = pending;
  progress = 0;
  error = none;
  result = none;
  created_at = at;
  updated_at = at;
}

-- The message of a job; its `created_at` is the instant, which the source prints in ISO 8601.
unfoldable pub stream_message : Job → JobCreate → ℕ → JobStreamMessage
stream_message job body at = record {
  job_id = job.id;
  type = body.type;
  payload = body.payload;
  created_at = at;
}

-- The part of create_job up to the commit.
unfoldable pub persist_job : JobType → Exec Session Job
unfolding new_job
persist_job type = do
  k ← uuid4
  at ← now
  execute (λ db. record db { jobs = db.jobs ++ new_job k at type ∷ [] })
  commit
  pure (new_job k at type)

unfoldable pub create_job : JobCreate → Exec World Job
unfolding persist_job stream_message publish_job
create_job body = do
  job ← in_session (persist_job body.type)
  at ← in_session now
  publish_job (stream_message job body at)
  pure job

unfoldable pub get_job : ℕ → Exec Session Job
get_job k = do
  found ← query (λ db. first (λ j. j.id == k) db.jobs)
  or_raise found (http_exception 404)
