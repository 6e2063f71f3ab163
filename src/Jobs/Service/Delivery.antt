-- ===== src/Jobs/Service/Delivery.antt =====
-- What a job leaves in the database and on the stream: create_job, and get_job after it.
use sirius_vkr.Prelude.{ℕ, ◌≡◌, refl, sym, true, false, List, [], ◌∷◌, ◌++◌, arith, ◌==◌, ==_refl}
use sirius_vkr.Sql.{exists}
use sirius_vkr.Sql.Laws.{first-append_none}
use sirius_vkr.Models.Jobs.{Job, pending}
use sirius_vkr.Exec.{ok}
use sirius_vkr.Session.{Session}
use sirius_vkr.Schemas.Job.{JobCreate, JobStreamMessage}
use sirius_vkr.Jobs.Queue.{World, ensure_consumer_group, publish_job}
use sirius_vkr.Jobs.Service.{new_job, stream_message, persist_job, create_job, get_job}

-- The row that the next job gets.
abbrev next_job : JobCreate → World → Job
next_job body w = new_job (w.session.fresh w.session.drawn) w.session.clock body.type

-- Another session of the same database.
abbrev pub other_session : Session → Session
other_session s = record s { pending = s.committed }

delivered :
    (body : JobCreate) (w : World)
    → w.redis.group_answered ≡ true
    → w.redis.add_answered ≡ true
    → let (r, w') = create_job body w in
      let job = next_job body w in
      (r ≡ ok job)
      × (w'.session.committed.jobs ≡ w.session.pending.jobs ++ job ∷ [])
      × (w'.redis.entries ≡ w.redis.entries ++ stream_message job body w.session.clock ∷ [])
unfolding create_job persist_job publish_job ensure_consumer_group
delivered body w group add = ground (arith, group, add)

-- A new row is what get_job finds.
get_job_new :
    (k : ℕ) (jobs : List Job) (job : Job) (s : Session)
    → exists (λ (j : Job). j.id == job.id) jobs ≡ false
    → s.committed.jobs ≡ jobs ++ job ∷ []
    → job.id ≡ k
    → (get_job k (other_session s)).0 ≡ ok job
unfolding get_job
get_job_new k jobs job s unused rows same =
    rw
      (
        sym same,
        rows,
        first-append_none (λ (j : Job). j.id == job.id) jobs (job ∷ []) unused,
        ==_refl job.id,
      )
      refl

-- A job as create_job makes it for a request.
abbrev pub IsPending : JobCreate → Job → Type 0
IsPending body job = (job.type ≡ body.type) × (job.status ≡ pending) × (job.progress ≡ 0)

-- A message that carries a request.
abbrev pub Carries : JobCreate → JobStreamMessage → Type 0
Carries body m = (m.type ≡ body.type) × (m.payload ≡ body.payload)

-- Where the id drawn is unused and Redis answers both commands, create_job returns a pending job of
-- the type asked for without progress and puts one message behind the stream, which carries the type
-- and the payload of the request; get_job of its job_id in another session finds the job.
pub get_job-create_job :
    (body : JobCreate) (w : World)
    → exists (λ (j : Job). j.id == w.session.fresh w.session.drawn) w.session.pending.jobs ≡ false
    → w.redis.group_answered ≡ true
    → w.redis.add_answered ≡ true
    → let (r, w') = create_job body w in
      (job : Job) × (m : JobStreamMessage) × (r ≡ ok job)
      × IsPending body job
      × (w'.redis.entries ≡ w.redis.entries ++ m ∷ [])
      × Carries body m
      × ((get_job m.job_id (other_session w'.session)).0 ≡ ok job)
unfolding new_job stream_message
get_job-create_job body w unused group add =
    let job = next_job body w in
    let m = stream_message job body w.session.clock in
    let (returned, rows, entries) = delivered body w group add in
    (
      job,
      m,
      returned,
      (refl, refl, refl),
      entries,
      (refl, refl),
      get_job_new m.job_id w.session.pending.jobs job (create_job body w).1.session unused rows
          refl,
    )
