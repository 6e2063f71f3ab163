-- ===== src/Privacy/Requests/Lifecycle.antt =====
-- The life of a data-subject request: privacy_service.py and the handler over it.
use sirius_vkr.Prelude.{
  ℕ, ◌≡◌, refl, ◌∙◌, true, false, ◌&&◌, some, List, [], ◌∷◌, All, arith, ◌==◌, ltb, leb, is_some,
  ==_iff,
}
use sirius_vkr.Sql.{exists, first, update_where}
use sirius_vkr.Sql.Laws.{
  All-append, All-update_where, All-first, All-map, All-weaken, first_found, count_where_pos,
  update_where_none, exists-update_where, exists-map,
}
use sirius_vkr.Sql.Order.{exists-order_by, All-order_by}
use sirius_vkr.Models.Vault.{RequestStatus, new, in_progress, done, rejected, SubjectRequest}
use sirius_vkr.Database.{Db}
use sirius_vkr.Exec.{ok, err, http_exception}
use sirius_vkr.Session.{Session}
use sirius_vkr.Postgres.{Postgres}
use sirius_vkr.Schemas.Privacy.{SubjectRequestCreate, SubjectRequestItem, SubjectRequestUpdate}
use sirius_vkr.Privacy.Requests.{
  is_open, is_closed, overdue, request_item, list_requests, create_request, set_status,
  update_request_status, update_request,
}

-- A request has an instant of resolution exactly when its status is closed.
abbrev pub IsResolved : SubjectRequest → Type 0
IsResolved r = is_some r.resolved_at ≡ is_closed r.status

abbrev pub AreResolved : Db → Type 0
AreResolved db = All IsResolved db.subject_requests

set_status-IsResolved :
    (status : RequestStatus) (at : ℕ) (r : SubjectRequest) → IsResolved (set_status status at r)
unfolding set_status is_closed
set_status-IsResolved new at r = refl
set_status-IsResolved in_progress at r = refl
set_status-IsResolved done at r = refl
set_status-IsResolved rejected at r = refl

-- Where every request is resolved exactly when it is closed, it is so in the database that a change
-- of status commits.
pub update_request_status-AreResolved :
    (k : ℕ) (status : RequestStatus) (s : Session)
    → AreResolved s.pending
    → AreResolved (update_request_status k status s).1.committed
unfolding update_request_status
update_request_status-AreResolved k status s h =
    All-update_where (λ r. r.id == k) IsResolved (set_status status s.clock)
      s.pending.subject_requests (λ r _ _. set_status-IsResolved status s.clock r) h

-- Where every request is resolved exactly when it is closed, it is so in the database that a new
-- request commits.
create_request-AreResolved :
    (pg : Postgres) (body : SubjectRequestCreate) (s : Session)
    → AreResolved s.pending
    → AreResolved (create_request pg body s).1.committed
unfolding create_request is_closed
create_request-AreResolved pg body s h =
    All-append IsResolved s.pending.subject_requests _ h (refl, tt)

-- Where a request is resolved exactly when it is closed, it is overdue exactly when it is open and
-- its deadline has passed.
overdue_lem :
    (at : ℕ) (r : SubjectRequest)
    → IsResolved r
    → overdue at r ≡ (is_open r.status && ltb r.due_at at)
unfolding overdue is_open is_closed
overdue_lem at r h = ground arith

-- With no request of the id the handler answers 404 and no request changes.
update_request_missing :
    (pg : Postgres) (k : ℕ) (body : SubjectRequestUpdate) (s : Session)
    → exists (λ r. r.id == k) s.pending.subject_requests ≡ false
    → ((update_request pg k body s).0 ≡ err (http_exception 404))
      × ((update_request pg k body s).1.committed.subject_requests ≡ s.pending.subject_requests)
unfolding update_request update_request_status
update_request_missing pg k body s h =
    let none_changed =
      update_where_none (λ r. r.id == k) (set_status body.status s.clock) s.pending.subject_requests
        h in
    rw (count_where_pos (λ r. r.id == k) s.pending.subject_requests, h) (refl, none_changed)

-- What the answer to a change of status says of the request that it names.
abbrev pub Answers : ℕ → RequestStatus → SubjectRequestItem → Type 0
Answers k status item =
    (item.id ≡ k) × (item.status ≡ status) × (is_some item.resolved_at ≡ is_closed status)

-- Rows with the id have the new status after the UPDATE.
abbrev Updated : ℕ → RequestStatus → SubjectRequest → Type 0
Updated k status r =
    (r.id == k) ≡ true → (r.status ≡ status) × (is_some r.resolved_at ≡ is_closed status)

All-Updated :
    (k : ℕ) (status : RequestStatus) (at : ℕ) (rs : List SubjectRequest)
    → All (Updated k status) (update_where (λ r. r.id == k) (set_status status at) rs)
unfolding set_status
All-Updated k status at [] = tt
All-Updated k status at (r ∷ rs) = (ground arith, All-Updated k status at rs)

-- The listing holds an id exactly when the table does.
exists-list_requests :
    (pg : Postgres) (at k : ℕ) (db : Db)
    → exists (λ i. i.id == k) (list_requests pg at db) ≡ exists (λ r. r.id == k) db.subject_requests
unfolding list_requests request_item
exists-list_requests pg at k db =
    exists-map (λ i. i.id == k) (request_item pg db at) _
    ∙ exists-order_by (λ a b. leb b.created_at a.created_at) (λ r. r.id == k) db.subject_requests

All-list_requests :
    (pg : Postgres) (at k : ℕ) (status : RequestStatus) (db : Db)
    → All (Updated k status) db.subject_requests
    → All (λ i. (i.id == k) ≡ true → Answers k status i) (list_requests pg at db)
unfolding list_requests request_item
All-list_requests pg at k status db h =
    All-map (λ i. (i.id == k) ≡ true → Answers k status i) (request_item pg db at) _
      (All-order_by (λ a b. leb b.created_at a.created_at) _ db.subject_requests
        (All-weaken (Updated k status) _ db.subject_requests
          (λ r u e. ((==_iff r.id k).0 e, (u e).0, (u e).1)) h))

-- The listing after such an UPDATE finds the request, with the status asked for.
found_item :
    (pg : Postgres) (at k : ℕ) (status : RequestStatus) (db : Db)
    → exists (λ r. r.id == k) db.subject_requests ≡ true
    → All (Updated k status) db.subject_requests
    → (item : SubjectRequestItem) × (first (λ i. i.id == k) (list_requests pg at db) ≡ some item)
      × Answers k status item
found_item pg at k status db h all =
    let (item, e, test) =
      first_found (λ i. i.id == k) (list_requests pg at db) (exists-list_requests pg at k db ∙ h) in
    (
      item,
      e,
      All-first (λ i. (i.id == k) ≡ true → Answers k status i) (λ i. i.id == k)
          (list_requests pg at db) item (All-list_requests pg at k status db all) e test,
    )

-- With a request of the id the handler answers with it, in the status asked for and resolved
-- exactly when that status is closed.
pub update_request_found :
    (pg : Postgres) (k : ℕ) (body : SubjectRequestUpdate) (s : Session)
    → exists (λ r. r.id == k) s.pending.subject_requests ≡ true
    → (item : SubjectRequestItem) × ((update_request pg k body s).0 ≡ ok item)
      × Answers k body.status item
unfolding update_request update_request_status
update_request_found pg k body s h =
    let (item, e, answers) =
      found_item pg s.clock k body.status (update_request_status k body.status s).1.pending
        (exists-update_where (λ r. r.id == k) (λ r. r.id == k) (set_status body.status s.clock)
            s.pending.subject_requests (λ r. refl)
          ∙ h)
        (All-Updated k body.status s.clock s.pending.subject_requests) in
    (item, rw (count_where_pos (λ r. r.id == k) s.pending.subject_requests, h, e) refl, answers)
