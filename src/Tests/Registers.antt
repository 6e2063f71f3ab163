-- ===== src/Tests/Registers.antt =====
-- Witnesses for consents, data-subject requests, jobs and uploads.
use sirius_vkr.Prelude.{
  arith, ◌≡◌, refl, Bool, true, false, none, some, [], ◌∷◌, ◌++◌, length, All, List,
}
use sirius_vkr.Models.Vault.{student, export, done, Consent}
use sirius_vkr.Models.Jobs.{import, Job}
use sirius_vkr.Models.People.{Student, Guardian}
use sirius_vkr.Sql.{exists}
use sirius_vkr.Exec.{ok, err, http_exception}
use sirius_vkr.Schemas.Privacy.{SubjectRequestCreate, SubjectRequestUpdate, SubjectRequestItem}
use sirius_vkr.Schemas.Job.{JobCreate, JobStreamMessage}
use sirius_vkr.Privacy.Consents.{sync_consents}
use sirius_vkr.Privacy.Consents.Sync.{sync_consents_idem}
use sirius_vkr.Privacy.Consents.Complete.{
  of_student, of_guardian, IsBootstrap, sync_consents_complete,
}
use sirius_vkr.Privacy.Requests.{is_closed, update_request_status, update_request}
use sirius_vkr.Privacy.Requests.Lifecycle.{
  AreResolved, Answers, update_request_status-AreResolved, update_request_found,
}
use sirius_vkr.Jobs.Queue.{World}
use sirius_vkr.Jobs.Service.{create_job, get_job}
use sirius_vkr.Jobs.Service.Lost.{is_among, serve_lost}
use sirius_vkr.Jobs.Service.Sequence.{
  Request, serve, view, IsBacked, serve-enqueue_all, serve-IsBacked,
}
use sirius_vkr.Jobs.Service.Delivery.{IsPending, Carries, other_session, get_job-create_job}
use sirius_vkr.Jobs.Upload.{
  UploadFile, Host, upload_dataset, acceptable, allowed_suffix, known_base, base_name,
}
use sirius_vkr.Jobs.Upload.Safety.{IsSafe, upload_dataset-IsSafe, upload_dataset_refused}
use sirius_vkr.Tests.Instances.{pg, packages, settings}
use sirius_vkr.Tests.Data.{db, s}

sync_consents_complete_example :
    let (r, s') = sync_consents s in
    All (λ (t : Student). exists (of_student t.id) s'.committed.consents ≡ true) db.students
    × All (λ (t : Guardian). exists (of_guardian t.id) s'.committed.consents ≡ true) db.guardians
    × (rows : List Consent) × (r ≡ ok (length rows))
    × (s'.committed.consents ≡ db.consents ++ rows)
    × All (IsBootstrap db) rows
sync_consents_complete_example = sync_consents_complete s

sync_consents_idem_example :
    let s' = (sync_consents s).1 in
    ((sync_consents s').0 ≡ ok 0)
    × ((sync_consents s').1.committed.consents ≡ s'.committed.consents)
sync_consents_idem_example = sync_consents_idem s

resolved : AreResolved db
unfolding is_closed
resolved = (refl, tt)

update_request_status-AreResolved_example :
    AreResolved (update_request_status 70 done s).1.committed
update_request_status-AreResolved_example = update_request_status-AreResolved 70 done s resolved

abbrev body : SubjectRequestCreate
body = record { subject_type = student; subject_id = 20; request_type = export; note = none }

abbrev to_done : SubjectRequestUpdate
to_done = record { status = done }

update_request_found_example :
    (item : SubjectRequestItem) × ((update_request pg 70 to_done s).0 ≡ ok item)
    × Answers 70 done item
update_request_found_example = update_request_found pg 70 to_done s refl

-- Redis answers, or it does not.
abbrev world : Bool → World
world answered = record {
  session = s;
  redis = record {
    group_answered = true;
    add_answered = answered;
    has_group = false;
    entries = [];
  };
}

abbrev job_body : JobCreate
job_body = record {
  type = import;
  payload = record { file_path = some "/data"; dataset_id = none; mode = none; dataset = none };
}

get_job-create_job_example :
    let (r, w') = create_job job_body (world true) in
    (job : Job) × (m : JobStreamMessage) × (r ≡ ok job)
    × IsPending job_body job
    × (w'.redis.entries ≡ (world true).redis.entries ++ m ∷ [])
    × Carries job_body m
    × ((get_job m.job_id (other_session w'.session)).0 ≡ ok job)
get_job-create_job_example = get_job-create_job job_body (world true) refl refl refl

abbrev host : Host
host = record { world = world true; files = [] }

abbrev good_file : UploadFile
good_file = record { filename = some "dir/Students.csv"; content = "id" }

abbrev bad_file : UploadFile
bad_file = record { filename = some "../students.exe"; content = "id" }

upload_dataset-IsSafe_example :
    All IsSafe (upload_dataset packages settings (good_file ∷ []) host).1.files
upload_dataset-IsSafe_example = upload_dataset-IsSafe packages settings (good_file ∷ []) host tt

upload_dataset_refused_example :
    let (r, h') = upload_dataset packages settings (good_file ∷ bad_file ∷ []) host in
    (r ≡ err (http_exception 400))
    × (h'.world.session.committed ≡ host.world.session.committed)
    × (h'.world.redis ≡ host.world.redis)
unfolding acceptable allowed_suffix known_base base_name
upload_dataset_refused_example =
    upload_dataset_refused packages settings (good_file ∷ bad_file ∷ []) host refl

-- Two requests for jobs; Redis answers the second only.
abbrev requests : List Request
requests =
    record { body = job_body; group_answered = true; add_answered = false }
    ∷ record { body = job_body; group_answered = true; add_answered = true }
    ∷ []

serve-enqueue_all_example :
    view (serve requests (world true)) ≡ record { rows = 100 ∷ 101 ∷ []; queued = 101 ∷ [] }
serve-enqueue_all_example = serve-enqueue_all requests (world true)

serve-IsBacked_example : IsBacked (view (serve requests (world true)))
serve-IsBacked_example = serve-IsBacked requests (world true) tt

-- The first request is lost; Redis answers the one after it.
serve_lost_example :
    let q = view (serve requests (world true)) in
    (is_among 100 q.rows ≡ true) × (is_among 100 q.queued ≡ false)
serve_lost_example =
    serve_lost (record { body = job_body; group_answered = true; add_answered = false })
      (record { body = job_body; group_answered = true; add_answered = true } ∷ []) (world true)
      refl refl (λ m h. ground arith)
