-- ===== src/Learning/Analytics/Bounds.antt =====
-- The figures of analytics_summary stay within one another.
use sirius_vkr.Prelude.{
  All-always, String, str_eq, ℕ, ◌*◌, ◌≤◌, ◌<◌, List, map, length, All, arith, ◌==◌, if_property,
}
use sirius_vkr.Sql.{select, count_where, order_by, distinct_text, not_null}
use sirius_vkr.Sql.Laws.{count_where-le-length, All-map}
use sirius_vkr.Models.Learning.{Course, Enrollment, is_completed_status, is_published}
use sirius_vkr.Database.{Db}
use sirius_vkr.Postgres.{Postgres}
use sirius_vkr.Schemas.Learning.{DirectionStat}
use sirius_vkr.Learning.Analytics.{
  Rounding, completion_rate, direction_stat, by_direction, analytics_summary, CourseRow,
  course_rows, direction_of,
}

rate_bound : (r b : ℕ) → 0 < b → 2 * (r * b) ≤ 2001 * b → r ≤ 1000
rate_bound r b pos h = grind arith

-- A rate of some of the enrollments is at most 1, which is 1000 thousandths.
completion_rate-le :
    (rounding : Rounding) (completed enrollments : ℕ)
    → completed ≤ enrollments
    → completion_rate rounding completed enrollments ≤ 1000
unfolding completion_rate
completion_rate-le rounding completed enrollments h =
    if_property (λ (r : ℕ). r ≤ 1000) (enrollments == 0) 0 (rounding.round3 completed enrollments)
      (λ _. omega arith)
      (λ some_rows.
        let pos : 0 < enrollments = ground arith in
        let below : 2 * (rounding.round3 completed enrollments * enrollments) ≤ 2001 * enrollments =
          omega (arith, rounding.below completed enrollments pos) in
        rate_bound (rounding.round3 completed enrollments) enrollments pos below)

abbrev count_completed : List Enrollment → ℕ
count_completed = count_where (λ e. is_completed_status e.status)

direction_stat-rate :
    (rounding : Rounding) (d : String) (rows : List CourseRow)
    → (direction_stat rounding d rows).completion_rate ≤ 1000
unfolding direction_stat
direction_stat-rate rounding d rows =
    let enrollments = not_null (map (λ (row : CourseRow). row.1) rows) in
    completion_rate-le rounding (count_completed enrollments) (length enrollments)
      (count_where-le-length (λ (e : Enrollment). is_completed_status e.status) enrollments)

-- No more courses are published than there are, and every completion rate of the summary is at most
-- 1000 thousandths.
pub analytics_summary-Bounded :
    (pg : Postgres) (rounding : Rounding) (db : Db)
    → let summary = analytics_summary pg rounding db in
      (summary.published_courses ≤ summary.total_courses)
      × (summary.completion_rate ≤ 1000)
      × All (λ stat. stat.completion_rate ≤ 1000) summary.by_direction
unfolding analytics_summary by_direction
analytics_summary-Bounded pg rounding db = (
  count_where-le-length (λ (c : Course). is_published c.status) db.courses,
  completion_rate-le rounding (count_completed db.enrollments) (length db.enrollments)
      (count_where-le-length (λ (e : Enrollment). is_completed_status e.status) db.enrollments),
  All-map (λ (stat : DirectionStat). stat.completion_rate ≤ 1000)
      (λ d.
        direction_stat rounding d
          (select (λ (row : CourseRow). str_eq (direction_of row.0.0) d) (course_rows db)))
      (order_by pg.text_le (distinct_text (map direction_of db.courses)))
      (All-always _ _ (λ d.
        direction_stat-rate rounding d
          (select (λ (row : CourseRow). str_eq (direction_of row.0.0) d) (course_rows db)))),
)
