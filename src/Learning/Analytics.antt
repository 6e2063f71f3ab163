-- ===== src/Learning/Analytics.antt =====
-- analytics_summary of services/learning_service.py. Python's `round(a / b, 3)` of a float is a
-- parameter, in thousandths.
pub mod Bounds
use sirius_vkr.Prelude.{
  ℕ, ◌+◌, ◌*◌, ◌≤◌, ◌<◌, Bool, false, String, Option, none, some, List, [], ◌∷◌, map, length, ◌==◌,
  str_eq, coalesce, if◌then◌else◌,
}
use sirius_vkr.Sql.{select, count_where, order_by, distinct, distinct_text, not_null, left_join}
use sirius_vkr.Models.Learning.{
  Course, Group, Enrollment, is_published, is_active_status, is_completed_status,
}
use sirius_vkr.Database.{Db}
use sirius_vkr.Postgres.{Postgres}
use sirius_vkr.Schemas.Learning.{DirectionStat, AnalyticsSummary}

-- `round(a / b, 3)`: for b > 0 the result is within half a thousandth of a / b, and the error of
-- the float division moves it no further than to the other neighbour of a tie.
pub record Rounding : Type 0 where
  pub round3 : ℕ → ℕ → ℕ
  pub above : (a b : ℕ) → 0 < b → 2000 * a ≤ 2 * (round3 a b * b) + b
  pub below : (a b : ℕ) → 0 < b → 2 * (round3 a b * b) ≤ 2000 * a + b

-- `round(completed / enrollments, 3) if enrollments else 0.0`
unfoldable pub completion_rate : Rounding → ℕ → ℕ → ℕ
completion_rate rounding completed enrollments =
    if enrollments == 0 then 0 else rounding.round3 completed enrollments

-- COALESCE(c.direction, 'Без направления')
unfoldable pub direction_of : Course → String
direction_of c = coalesce c.direction "Без направления"

-- A row of the join of courses, groups and enrollments.
abbrev pub CourseRow : Type 0
CourseRow = (Course × Option Group) × Option Enrollment

-- e.group_id = g.id, where g may be the NULLs of the join before
unfoldable pub enrolled_in : Course × Option Group → Enrollment → Bool
enrolled_in (c, none) e = false
enrolled_in (c, some g) e = e.group_id == g.id

unfoldable pub course_rows : Db → List CourseRow
unfolding enrolled_in
course_rows db =
    left_join enrolled_in
      (left_join (λ (c : Course) (g : Group). g.course_id == c.id) db.courses db.groups)
      db.enrollments

-- One group of the GROUP BY, from its rows.
unfoldable pub direction_stat : Rounding → String → List CourseRow → DirectionStat
unfolding completion_rate
direction_stat rounding d rows =
    let enrollments = not_null (map (λ row. row.1) rows) in
    record {
      direction = d;
      students = length (distinct (map (λ e. e.student_id) enrollments));
      courses = length (distinct (map (λ row. row.0.0.id) rows));
      completion_rate =
          completion_rate rounding (count_where (λ e. is_completed_status e.status) enrollments)
            (length enrollments);
    }

unfoldable pub by_direction : Postgres → Rounding → Db → List DirectionStat
unfolding direction_of course_rows direction_stat
by_direction pg rounding db =
    let rows = course_rows db in
    map
      (λ d.
        direction_stat rounding d
          (select (λ (row : CourseRow). str_eq (direction_of row.0.0) d) rows))
      (order_by pg.text_le (distinct_text (map direction_of db.courses)))

unfoldable pub analytics_summary : Postgres → Rounding → Db → AnalyticsSummary
unfolding completion_rate by_direction
analytics_summary pg rounding db = record {
  total_students = length db.students;
  active_students =
      length (
        distinct
          (map (λ e. e.student_id) (select (λ e. is_active_status e.status) db.enrollments)));
  total_courses = length db.courses;
  published_courses = count_where (λ c. is_published c.status) db.courses;
  total_enrollments = length db.enrollments;
  completion_rate =
      completion_rate rounding (count_where (λ e. is_completed_status e.status) db.enrollments)
        (length db.enrollments);
  by_direction = by_direction pg rounding db;
}
