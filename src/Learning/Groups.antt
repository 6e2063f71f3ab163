-- ===== src/Learning/Groups.antt =====
-- Groups and their members: services/learning_service.py and api/v1/groups.py.
pub mod Transfer
pub mod Members
pub mod Others
pub mod Update
use sirius_vkr.Prelude.{
  ℕ, suc, Bool, true, false, not, ◌&&◌, ◌||◌, String, Option, none, some, List, [], ◌∷◌, ◌++◌, map,
  ◌==◌, if◌then◌else◌,
}
use sirius_vkr.Sql.{select, exists, count_where, first, update_where, order_by, member, inner_join}
use sirius_vkr.Models.People.{Student}
use sirius_vkr.Models.Learning.{Course, Group, Enrollment, active}
use sirius_vkr.Database.{Db}
use sirius_vkr.Exec.{Exec, http_exception, pure, or_raise, ◌>>=◌, ◌>>◌}
use sirius_vkr.Session.{Session, commit, query, execute_checked, uuid4, now}
use sirius_vkr.Postgres.{Postgres, student_name}
use sirius_vkr.Schemas.Learning.{GroupMember, GroupSummary, GroupDetail, GroupMembersUpdate}

-- A row of the query of list_groups.
unfoldable pub group_summary_row : Db → Group × Course → GroupSummary
group_summary_row db (g, c) = record {
  id = g.id;
  course_id = g.course_id;
  course_title = c.title;
  direction = c.direction;
  name = g.name;
  teacher_id = g.teacher_id;
  members_count = count_where (λ e. e.group_id == g.id) db.enrollments;
}

-- CAST(:course_id AS uuid) IS NULL OR g.course_id = :course_id
unfoldable pub of_course : Option ℕ → Group × Course → Bool
of_course none row = true
of_course (some k) row = row.0.course_id == k

-- ORDER BY c.title, g.name
unfoldable pub group_le : Postgres → Group × Course → Group × Course → Bool
group_le pg a b =
    not (pg.text_le b.1.title a.1.title)
    || pg.text_le a.1.title b.1.title && pg.text_le a.0.name b.0.name

unfoldable pub list_groups : Postgres → Option ℕ → Db → List GroupSummary
unfolding group_summary_row of_course group_le
list_groups pg course db = map (group_summary_row db) (
    order_by (group_le pg) (
      select (of_course course)
        (inner_join (λ (g : Group) (c : Course). c.id == g.course_id) db.groups db.courses)))

-- `_group_summary`
unfoldable pub group_summary : Postgres → ℕ → Db → Option GroupSummary
unfolding list_groups
group_summary pg k db = first (λ g. g.id == k) (list_groups pg none db)

-- `_group_members`
unfoldable pub group_members : Postgres → ℕ → Db → List GroupMember
group_members pg k db =
    order_by (λ a b. pg.text_le a.student_name b.student_name)
      (map
        (λ row. record {
          enrollment_id = row.0.id;
          student_id = row.0.student_id;
          student_name = student_name pg row.1;
          status = row.0.status;
          progress = row.0.progress;
        })
        (inner_join (λ (e : Enrollment) (t : Student). t.id == e.student_id)
          (select (λ e. e.group_id == k) db.enrollments) db.students))

unfoldable pub get_group_detail : Postgres → ℕ → Db → Option GroupDetail
unfolding group_summary group_members
get_group_detail pg k db = elim (group_summary pg k db) [
  | none ↦ none
  | some g ↦ some (record { summary = g; members = group_members pg k db })
]

-- The join with core.groups under WHERE g.course_id = :cid: an enrollment names one group, so
-- that each row comes once.
unfoldable pub in_course : Db → ℕ → Enrollment → Bool
in_course db course e = exists (λ g. g.id == e.group_id && g.course_id == course) db.groups

-- The query `existing` of update_group_members.
unfoldable pub existing_enrollments : Db → ℕ → List ℕ → List Enrollment
unfolding in_course
existing_enrollments db course sids =
    select (λ e. in_course db course e && member e.student_id sids) db.enrollments

-- `by_student.get(sid)` of the dict that is built from the rows: the last row of a student
-- stands. The value is the pair (enrollment_id, current_group_id).
unfoldable pub by_student : List Enrollment → ℕ → Option (ℕ × ℕ)
by_student [] sid = none
by_student (e ∷ es) sid = elim (by_student es sid) [
  | some current ↦ some current
  | none ↦ if e.student_id == sid then some (e.id, e.group_id) else none
]

-- uq_enrollments_student_group and the foreign keys, for an INSERT
unfoldable pub enrollment_forbidden : ℕ → ℕ → Db → Bool
enrollment_forbidden sid gid db =
    exists (λ e. e.student_id == sid && e.group_id == gid) db.enrollments
    || not (exists (λ t. t.id == sid) db.students)
    || not (exists (λ g. g.id == gid) db.groups)

-- The row of an INSERT that leaves the other columns to their defaults.
unfoldable pub new_enrollment : ℕ → ℕ → ℕ → ℕ → Enrollment
new_enrollment k sid gid at = record {
  id = k;
  student_id = sid;
  group_id = gid;
  status = active;
  progress = 0;
  enrolled_at = at;
}

-- INSERT INTO core.enrollments
unfoldable pub insert_enrollment : ℕ → ℕ → ℕ → Exec Session (Unit {0})
unfolding enrollment_forbidden new_enrollment
insert_enrollment k sid gid = do
  at ← now
  execute_checked (enrollment_forbidden sid gid)
      (λ db. record db { enrollments = db.enrollments ++ new_enrollment k sid gid at ∷ [] })

-- uq_enrollments_student_group and the foreign key, for UPDATE ... SET group_id = :gid: another
-- row pairs the student with the group already, or the group is not there.
unfoldable pub move_forbidden : ℕ → ℕ → Db → Bool
move_forbidden eid gid db =
    exists
      (λ e.
        e.id == eid
        && exists (λ o. not (o.id == eid) && (o.student_id == e.student_id && o.group_id == gid))
            db.enrollments)
      db.enrollments
    || not (exists (λ g. g.id == gid) db.groups)

-- UPDATE core.enrollments SET group_id = :gid WHERE id = :eid
unfoldable pub move_enrollment : ℕ → ℕ → Exec Session (Unit {0})
unfolding move_forbidden
move_enrollment eid gid = execute_checked (move_forbidden eid gid) (λ db. record db {
  enrollments = update_where (λ e. e.id == eid) (λ e. record e { group_id = gid }) db.enrollments;
})

-- One round of the loop of update_group_members, on `by_student.get(sid)`.
unfoldable pub place : ℕ → ℕ → Option (ℕ × ℕ) → Exec Session (Unit {0})
unfolding insert_enrollment move_enrollment
place gid sid none = do k ← uuid4; insert_enrollment k sid gid
place gid sid (some (eid, current)) = if current == gid then pure tt else move_enrollment eid gid

-- The loop over student_ids; `existing` is the snapshot from before it.
unfoldable pub place_all : ℕ → List Enrollment → List ℕ → Exec Session (Unit {0})
unfolding place by_student
place_all gid existing [] = pure tt
place_all gid existing (sid ∷ sids) = do
  place gid sid (by_student existing sid)
  place_all gid existing sids

-- The course of a group, as the first query of update_group_members finds it.
unfoldable pub course_of_group : ℕ → Db → Option ℕ
course_of_group gid db = elim (first (λ g. g.id == gid) db.groups) [
  | none ↦ none
  | some g ↦ some g.course_id
]

-- The part of update_group_members after the course is known.
unfoldable pub transfer : Postgres → ℕ → List ℕ → Option ℕ → Exec Session (Option GroupDetail)
unfolding existing_enrollments place_all get_group_detail
transfer pg gid sids none = pure none
transfer pg gid sids (some course) = do
  existing ← query (λ db. existing_enrollments db course sids)
  place_all gid existing sids
  commit
  query (get_group_detail pg gid)

unfoldable pub update_group_members : Postgres → ℕ → List ℕ → Exec Session (Option GroupDetail)
unfolding course_of_group transfer
update_group_members pg gid sids = do
  course ← query (course_of_group gid)
  transfer pg gid sids course

-- `get_group` and `update_members` of api/v1/groups.py: None is a 404.
unfoldable pub get_group_route : Postgres → ℕ → Exec Session GroupDetail
unfolding get_group_detail
get_group_route pg k = do found ← query (get_group_detail pg k); or_raise found (http_exception 404)

unfoldable pub update_members_route : Postgres → ℕ → GroupMembersUpdate → Exec Session GroupDetail
unfolding update_group_members
update_members_route pg k body = do
  found ← update_group_members pg k body.student_ids
  or_raise found (http_exception 404)
