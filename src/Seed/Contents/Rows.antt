-- ===== src/Seed/Contents/Rows.antt =====
-- seed_demo.py: the statements on badges, stats and enrollments.
use sirius_vkr.Prelude.{ℕ, ◌&&◌, String, some, List, [], ◌∷◌, ◌++◌, ◌==◌, str_eq, if◌then◌else◌}
use sirius_vkr.Sql.{select, exists, update_where}
use sirius_vkr.Models.Learning.{
  Enrollment, EnrollmentStatus, active, completed, StudentStats, Badge, StudentBadge,
}
use sirius_vkr.Database.{Db}
use sirius_vkr.Exec.{Exec, ◌>>=◌}
use sirius_vkr.Seed.Catalogue.{BadgeSpec}
use sirius_vkr.Seed.State.{Seeder, uuid4, now, execute}

-- INSERT INTO core.badges ... ON CONFLICT (code) DO NOTHING
unfoldable pub add_badge : ℕ → BadgeSpec → Db → Db
add_badge k b db = record db {
  badges =
      if exists (λ (x : Badge). str_eq x.code b.code) db.badges
      then db.badges
      else db.badges
        ++ record {
          id = k;
          code = b.code;
          title = b.title;
          description = some b.description;
          icon = some b.icon;
        }
          ∷ [];
}

unfoldable pub insert_badge : BadgeSpec → Exec Seeder (Unit {0})
unfolding add_badge
insert_badge b = do k ← uuid4; execute (add_badge k b)

-- The links of `_award_badge` to the badges of the code, ON CONFLICT DO NOTHING.
unfoldable pub add_awards : ℕ → ℕ → List Badge → List StudentBadge → List StudentBadge
add_awards student_id at [] links = links
add_awards student_id at (b ∷ bs) links =
    let rest = add_awards student_id at bs in
    if exists (λ (l : StudentBadge). l.student_id == student_id && l.badge_id == b.id) links
    then rest links
    else rest (links ++ record { student_id = student_id; badge_id = b.id; awarded_at = at } ∷ [])

unfoldable pub award_badge : ℕ → String → Exec Seeder (Unit {0})
unfolding add_awards
award_badge student_id code = do
  at ← now
  execute (λ db. record db {
    student_badges =
        add_awards student_id at (select (λ (b : Badge). str_eq b.code code) db.badges)
          db.student_badges;
  })

-- The INSERT of `_set_stats`, or the UPDATE ON CONFLICT (student_id).
unfoldable pub set_stats_row : StudentStats → List StudentStats → List StudentStats
set_stats_row row rows =
    if exists (λ (x : StudentStats). x.student_id == row.student_id) rows
    then update_where (λ (x : StudentStats). x.student_id == row.student_id) (λ x. row) rows
    else rows ++ row ∷ []

unfoldable pub set_stats : ℕ → ℕ → ℕ → ℕ → Exec Seeder (Unit {0})
unfolding set_stats_row
set_stats student_id xp level streak = do
  at ← now
  execute (λ db. record db {
    student_stats =
        set_stats_row
          (record {
            student_id = student_id;
            xp = xp;
            level = level;
            streak_days = streak;
            updated_at = at;
          })
          db.student_stats;
  })

-- `"completed" if progress == 100 else "active"`
unfoldable pub status_of : ℕ → EnrollmentStatus
status_of progress = if progress == 100 then completed else active

-- INSERT INTO core.enrollments ... ON CONFLICT (student_id, group_id) DO NOTHING
unfoldable pub add_enrollment : ℕ → ℕ → ℕ → ℕ → ℕ → Db → Db
unfolding status_of
add_enrollment k at student_id group_id progress db = record db {
  enrollments =
      if exists (λ (e : Enrollment). e.student_id == student_id && e.group_id == group_id)
        db.enrollments
      then db.enrollments
      else db.enrollments
        ++ record {
          id = k;
          student_id = student_id;
          group_id = group_id;
          status = status_of progress;
          progress = progress;
          enrolled_at = at;
        }
          ∷ [];
}

unfoldable pub seed_enrollment : ℕ → ℕ → ℕ → Exec Seeder (Unit {0})
unfolding add_enrollment
seed_enrollment student_id group_id progress = do
  k ← uuid4
  at ← now
  execute (add_enrollment k at student_id group_id progress)
