-- ===== src/Learning/Subjects.antt =====
-- Subject resolution, names and counters of services/learning_service.py.
use sirius_vkr.Prelude.{ℕ, String, Option, none, some, List, map, ◌==◌}
use sirius_vkr.Sql.{select, first, distinct, eq_null, inner_join}
use sirius_vkr.Models.People.{Student, Guardian, StudentGuardian}
use sirius_vkr.Database.{Db}
use sirius_vkr.Postgres.{Postgres, student_name, or_dash}

unfoldable pub resolve_student_for_user : ℕ → Db → Option ℕ
resolve_student_for_user uid db = elim (first (λ s. eq_null s.user_id uid) db.students) [
  | none ↦ none
  | some s ↦ some s.id
]

-- The joined rows of core.students, core.student_guardian and core.guardians of one parent.
unfoldable pub children_rows : ℕ → Db → List Student
children_rows uid db =
    map (λ row. row.0.0)
      (select (λ row. eq_null row.1.user_id uid)
        (inner_join
          (λ (pair : Student × StudentGuardian) (g : Guardian). g.id == pair.1.guardian_id)
          (inner_join (λ (s : Student) (sg : StudentGuardian). sg.student_id == s.id) db.students
            db.student_guardian)
          db.guardians))

unfoldable pub resolve_children_ids : ℕ → Db → List ℕ
unfolding children_rows
resolve_children_ids uid db = distinct (map (λ s. s.id) (children_rows uid db))

-- `_student_name`
unfoldable pub display_name : Postgres → ℕ → Db → String
unfolding or_dash
display_name pg k db =
    or_dash (elim (first (λ t. t.id == k) db.students) [
      | none ↦ none
      | some t ↦ some (student_name pg t)
    ])

-- The result of `_stats`: xp, level and streak.
pub record Stats : Type 0 where
  pub xp : ℕ
  pub level : ℕ
  pub streak_days : ℕ

-- `_stats`
unfoldable pub stats : ℕ → Db → Stats
stats k db = elim (first (λ st. st.student_id == k) db.student_stats) [
  | none ↦ record { xp = 0; level = 1; streak_days = 0 }
  | some st ↦ record { xp = st.xp; level = st.level; streak_days = st.streak_days }
]
