-- ===== src/Learning/Enrollments.antt =====
-- Enrollments: create_enrollment of services/learning_service.py and api/v1/enrollments.py.
pub mod Create
use sirius_vkr.Prelude.{ℕ, Bool, not, Option, none, some, List, ◌==◌}
use sirius_vkr.Sql.{exists, first}
use sirius_vkr.Models.Access.{User}
use sirius_vkr.Models.Learning.{Enrollment}
use sirius_vkr.Database.{Db}
use sirius_vkr.Exec.{
  Exec, Error, learning_error, http_exception, integrity_error, no_result_found, pure, raise,
  raise_if, or_raise, try_catch, ◌>>=◌, ◌>>◌,
}
use sirius_vkr.Session.{Session, commit, rollback, query, uuid4}
use sirius_vkr.Schemas.Learning.{EnrollmentCreate, EnrollmentItem}
use sirius_vkr.Learning.Subjects.{resolve_student_for_user}
use sirius_vkr.Learning.Groups.{insert_enrollment}

unfoldable pub enrollment_item : Enrollment → EnrollmentItem
enrollment_item e = record {
  id = e.id;
  student_id = e.student_id;
  group_id = e.group_id;
  status = e.status;
  progress = e.progress;
  enrolled_at = e.enrolled_at;
}

-- `except IntegrityError`: roll back and raise LearningError; any other exception goes on.
unfoldable pub on_duplicate : Error → Exec Session (Unit {0})
on_duplicate integrity_error = rollback >> raise (learning_error "Already enrolled in this group")
on_duplicate e = raise e

unfoldable pub create_enrollment : ℕ → ℕ → Exec Session EnrollmentItem
unfolding insert_enrollment on_duplicate enrollment_item
create_enrollment sid gid = do
  found ← query (λ db. exists (λ g. g.id == gid) db.groups)
  raise_if (not found) (learning_error "Group not found")
  k ← uuid4
  try_catch (insert_enrollment k sid gid >> commit) on_duplicate
  row ← query (λ db. first (λ e. e.id == k) db.enrollments)
  e ← or_raise row no_result_found
  pure (enrollment_item e)

-- `except LearningError`: a 409; any other exception goes on.
unfoldable pub on_learning_error : Error → Exec Session EnrollmentItem
on_learning_error (learning_error _) = raise (http_exception 409)
on_learning_error e = raise e

-- `enroll` of api/v1/enrollments.py
unfoldable pub enroll : EnrollmentCreate → User → Exec Session EnrollmentItem
unfolding create_enrollment on_learning_error resolve_student_for_user
enroll body user = do
  own ← query (resolve_student_for_user user.id)
  sid ← or_raise own (http_exception 404)
  try_catch (create_enrollment sid body.group_id) on_learning_error
