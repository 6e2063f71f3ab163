-- ===== src/Privacy/Requests.antt =====
-- The data-subject requests of services/privacy_service.py, and the handlers of api/v1/privacy.py
-- that change them.
pub mod Lifecycle
use sirius_vkr.Prelude.{
  ℕ, ◌+◌, ◌*◌, Bool, true, false, not, ◌&&◌, String, Option, none, some, List, [], ◌∷◌, ◌++◌, map,
  ◌==◌, ltb, leb, is_none, if◌then◌else◌,
}
use sirius_vkr.Sql.{count_where, first, order_by, update_where}
use sirius_vkr.Models.Vault.{
  SubjectType, student, guardian, RequestStatus, new, in_progress, done, rejected, SubjectRequest,
}
use sirius_vkr.Database.{Db}
use sirius_vkr.Exec.{Exec, pure, raise_if, or_raise, http_exception, ◌>>=◌, ◌>>◌}
use sirius_vkr.Session.{Session, commit, query, execute, uuid4, now}
use sirius_vkr.Postgres.{Postgres, student_name, guardian_name, or_dash}
use sirius_vkr.Schemas.Privacy.{SubjectRequestCreate, SubjectRequestItem, SubjectRequestUpdate}
use sirius_vkr.Privacy.Consents.{joined_name}

-- `_DUE_DAYS`
abbrev pub due_days : ℕ
due_days = 10

-- timedelta(days=n), in seconds
abbrev pub days : ℕ → ℕ
days n = n * 86400

-- The row of `_subject_name`, by `_SUBJECT_TABLE`.
unfoldable pub subject_row : Postgres → SubjectType → ℕ → Db → Option String
subject_row pg student k db = elim (first (λ t. t.id == k) db.students) [
  | none ↦ none
  | some t ↦ some (student_name pg t)
]
subject_row pg guardian k db = elim (first (λ t. t.id == k) db.guardians) [
  | none ↦ none
  | some t ↦ some (guardian_name pg t)
]

-- `_subject_name`
unfoldable pub subject_name : Postgres → SubjectType → ℕ → Db → String
unfolding subject_row or_dash
subject_name pg type k db = or_dash (subject_row pg type k db)

-- `status in (NEW, IN_PROGRESS)`
unfoldable pub is_open : RequestStatus → Bool
is_open new = true
is_open in_progress = true
is_open done = false
is_open rejected = false

-- `status in (DONE, REJECTED)`
unfoldable pub is_closed : RequestStatus → Bool
is_closed new = false
is_closed in_progress = false
is_closed done = true
is_closed rejected = true

-- The flag that `_request_item` computes at the instant `at`.
unfoldable pub overdue : ℕ → SubjectRequest → Bool
unfolding is_open
overdue at r = is_none r.resolved_at && (ltb r.due_at at && is_open r.status)

-- `_request_item`, of a row of the query of list_requests
unfoldable pub request_item : Postgres → Db → ℕ → SubjectRequest → SubjectRequestItem
unfolding overdue
request_item pg db at r = record {
  id = r.id;
  subject_type = r.subject_type;
  subject_id = r.subject_id;
  subject_name = joined_name pg db r.subject_type r.subject_id;
  request_type = r.request_type;
  status = r.status;
  note = r.note;
  created_at = r.created_at;
  due_at = r.due_at;
  resolved_at = r.resolved_at;
  overdue = overdue at r;
}

-- ORDER BY r.created_at DESC
unfoldable pub list_requests : Postgres → ℕ → Db → List SubjectRequestItem
unfolding request_item
list_requests pg at db =
    map (request_item pg db at)
      (order_by (λ a b. leb b.created_at a.created_at) db.subject_requests)

-- The row that create_request inserts.
unfoldable pub new_request : SubjectRequestCreate → ℕ → ℕ → SubjectRequest
new_request body k at = record {
  id = k;
  subject_type = body.subject_type;
  subject_id = body.subject_id;
  request_type = body.request_type;
  status = new;
  note = body.note;
  created_at = at;
  due_at = at + days due_days;
  resolved_at = none;
}

unfoldable pub create_request : Postgres → SubjectRequestCreate → Exec Session SubjectRequestItem
unfolding new_request subject_name
create_request pg body = do
  at ← now
  k ← uuid4
  execute (λ db. record db { subject_requests = db.subject_requests ++ new_request body k at ∷ [] })
  commit
  name ← query (subject_name pg body.subject_type body.subject_id)
  pure (record {
    id = k;
    subject_type = body.subject_type;
    subject_id = body.subject_id;
    subject_name = name;
    request_type = body.request_type;
    status = new;
    note = body.note;
    created_at = at;
    due_at = at + days due_days;
    resolved_at = none;
    overdue = false;
  })

-- SET status = :status, resolved_at = :resolved
unfoldable pub set_status : RequestStatus → ℕ → SubjectRequest → SubjectRequest
unfolding is_closed
set_status status at r = record r {
  status = status;
  resolved_at = if is_closed status then some at else none;
}

-- The result says whether the row count of the UPDATE is positive.
unfoldable pub update_request_status : ℕ → RequestStatus → Exec Session Bool
unfolding set_status
update_request_status k status = do
  at ← now
  rows ← query (λ db. count_where (λ r. r.id == k) db.subject_requests)
  execute (λ db. record db {
    subject_requests = update_where (λ r. r.id == k) (set_status status at) db.subject_requests;
  })
  commit
  pure (ltb 0 rows)

-- `update_request` of api/v1/privacy.py
unfoldable pub update_request :
    Postgres → ℕ → SubjectRequestUpdate → Exec Session SubjectRequestItem
unfolding update_request_status list_requests
update_request pg k body = do
  found ← update_request_status k body.status
  raise_if (not found) (http_exception 404)
  at ← now
  items ← query (list_requests pg at)
  or_raise (first (λ item. item.id == k) items) (http_exception 404)
