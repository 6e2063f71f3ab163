-- ===== src/Learning/Registry.antt =====
-- list_student_registry of services/learning_service.py.
use sirius_vkr.Prelude.{ℕ, String, none, some, List, map, length, ◌==◌, str_eq, if◌then◌else◌}
use sirius_vkr.Sql.{
  select, count_where, first, order_by, distinct, distinct_text, not_null, round_avg, inner_join,
}
use sirius_vkr.Models.People.{Student}
use sirius_vkr.Models.Learning.{Course, Group, Enrollment, is_active_status}
use sirius_vkr.Database.{Db}
use sirius_vkr.Postgres.{Postgres, student_name}
use sirius_vkr.Schemas.Learning.{StudentRegistryItem, StudentStatus}

-- The enrollments of one student: the rows of one group of the GROUP BY where e is not NULL. The
-- joins that follow are to primary keys over NOT NULL foreign keys and repeat no row.
unfoldable pub enrollments_of : ℕ → Db → List Enrollment
enrollments_of k db = select (λ e. e.student_id == k) db.enrollments

-- The courses of those rows.
unfoldable pub courses_of : List Enrollment → Db → List Course
courses_of es db =
    map (λ row. row.1)
      (inner_join (λ (pair : Enrollment × Group) (c : Course). c.id == pair.1.course_id)
        (inner_join (λ (e : Enrollment) (g : Group). g.id == e.group_id) es db.groups) db.courses)

-- The tests on active_count and enroll_count.
unfoldable pub registry_status : ℕ → ℕ → StudentStatus
registry_status active_count enroll_count =
    if active_count == 0
    then if enroll_count == 0 then StudentStatus.not_enrolled else StudentStatus.completed
    else StudentStatus.active

-- `r["student_name"] or "—"`
unfoldable pub name_or_dash : String → String
name_or_dash s = if str_eq s "" then "—" else s

unfoldable pub registry_item : Postgres → Db → Student → StudentRegistryItem
unfolding enrollments_of courses_of registry_status name_or_dash
registry_item pg db t =
    let es = enrollments_of t.id db in
    let cs = courses_of es db in
    let st = first (λ s. s.student_id == t.id) db.student_stats in
    record {
      id = t.id;
      student_name = name_or_dash (student_name pg t);
      birth_date = t.birth_date;
      directions = order_by pg.text_le (distinct_text (not_null (map (λ c. c.direction) cs)));
      courses_count = length (distinct (map (λ c. c.id) cs));
      avg_progress = round_avg (map (λ e. e.progress) es);
      status = registry_status (count_where (λ e. is_active_status e.status) es) (length es);
      xp = elim st [ none ↦ 0 | some s ↦ s.xp ];
      level = elim st [ none ↦ 1 | some s ↦ s.level ];
    }

-- ORDER BY student_name
unfoldable pub list_student_registry : Postgres → Db → List StudentRegistryItem
unfolding registry_item
list_student_registry pg db =
    map (registry_item pg db)
      (order_by (λ a b. pg.text_le (student_name pg a) (student_name pg b)) db.students)
