-- ===== src/Seed/Contents.antt =====
-- seed_demo.py: courses, groups, timetable, enrollments and activities.
pub mod Rows
unfoldable pub use sirius_vkr.Seed.Contents.Rows.{
  add_badge, insert_badge, add_awards, award_badge, set_stats_row, set_stats, status_of,
  add_enrollment, seed_enrollment,
}
use Prim.Native.String.{◌++◌ as join}
use sirius_vkr.Prelude.{
  ℕ, zero, suc, ◌+◌, ◌*◌, ◌&&◌, String, Option, none, some, List, [], ◌∷◌, ◌++◌, ◌==◌, str_eq,
  if◌then◌else◌,
}
use sirius_vkr.Sql.{select, exists, update_where}
use sirius_vkr.Models.Learning.{
  Course, published, Group, Enrollment, EnrollmentStatus, active, completed, Activity, ActivityType,
  competition, event, Module, Lesson, ScheduleSlot, StudentStats, Badge, StudentBadge,
}
use sirius_vkr.Database.{Db}
use sirius_vkr.Exec.{Exec, index_error, pure, or_raise, ◌>>=◌, ◌>>◌}
use sirius_vkr.Postgres.{Postgres}
use sirius_vkr.Privacy.Requests.{days}
use sirius_vkr.Seed.Catalogue.{LessonSpec, ModuleSpec, SlotSpec, CourseSpec, BadgeSpec, courses}
use sirius_vkr.Seed.Translit.{translit, prefix, decimal}
use sirius_vkr.Seed.State.{
  Random, Seeder, uuid4, now, execute, commit, randint, choice, sample, for_each, for_collect,
  repeat_collect, enumerate, get_elem?,
}
use sirius_vkr.Seed.People.{person, insert_student}

-- `material` of a lesson
unfoldable pub material_url : String → ℕ → ℕ → LessonSpec → Option String
unfolding translit prefix decimal
material_url title m_pos l_pos lesson =
    if lesson.material
    then some (
        join "/materials/" (
          join (prefix 8 (translit title))
            (join "-" (join (decimal m_pos) (join "-" (join (decimal l_pos) ".pdf"))))))
    else none

unfoldable pub seed_lesson : String → ℕ → ℕ → ℕ × LessonSpec → Exec Seeder (Unit {0})
unfolding material_url
seed_lesson title module_id m_pos (l_pos, lesson) = do
  k ← uuid4
  at ← now
  let row : Lesson = record {
    id = k;
    module_id = module_id;
    title = lesson.title;
    position = l_pos;
    content = some lesson.content;
    material_url = material_url title m_pos l_pos lesson;
    created_at = at;
  }
  execute (λ db. record db { lessons = db.lessons ++ row ∷ [] })

unfoldable pub seed_module : String → ℕ → ℕ × ModuleSpec → Exec Seeder (Unit {0})
unfolding seed_lesson
seed_module title course_id (m_pos, spec) = do
  module_id ← uuid4
  at ← now
  let row : Module = record {
    id = module_id;
    course_id = course_id;
    title = spec.title;
    position = m_pos;
    created_at = at;
  }
  execute (λ db. record db { modules = db.modules ++ row ∷ [] })
  for_each (enumerate 0 spec.lessons) (seed_lesson title module_id m_pos)

unfoldable pub seed_slot : ℕ → SlotSpec → Exec Seeder (Unit {0})
seed_slot group_id slot = do
  k ← uuid4
  let row : ScheduleSlot = record {
    id = k;
    group_id = group_id;
    weekday = slot.weekday;
    starts_at = slot.starts;
    ends_at = slot.ends;
    room = some slot.room;
  }
  execute (λ db. record db { schedule_slots = db.schedule_slots ++ row ∷ [] })

-- One round of the loop over "groups"; the first group is taught by the demo teacher.
unfoldable pub seed_group : ℕ → ℕ → List SlotSpec → ℕ × String → Exec Seeder ℕ
unfolding seed_slot
seed_group teacher_id course_id schedule (idx, gname) = do
  group_id ← uuid4
  at ← now
  let row : Group = record {
    id = group_id;
    course_id = course_id;
    name = gname;
    teacher_id = if idx == 0 then some teacher_id else none;
    created_at = at;
  }
  execute (λ db. record db { groups = db.groups ++ row ∷ [] })
  for_each schedule (seed_slot group_id)
  pure group_id

-- The values of `progress` that the cohort draws from.
abbrev pub progresses : List ℕ
progresses = 0 ∷ 20 ∷ 40 ∷ 60 ∷ 80 ∷ 100 ∷ 100 ∷ []

module _ (random : Random) where
  -- One round of the loop over COURSES; the result is `course_group_ids`.
  unfoldable pub seed_course : ℕ → List ℕ → CourseSpec → Exec Seeder (List ℕ)
  unfolding seed_module seed_group seed_enrollment
  seed_course teacher_id extra_students spec = do
    course_id ← uuid4
    at ← now
    let row : Course = record {
      id = course_id;
      title = spec.title;
      direction = some spec.direction;
      description = some spec.description;
      author_id = some teacher_id;
      status = published;
      created_at = at;
      updated_at = at;
    }
    execute (λ db. record db { courses = db.courses ++ row ∷ [] })
    for_each (enumerate 0 spec.modules) (seed_module spec.title course_id)
    group_ids ←
        for_collect (enumerate 0 spec.groups) (seed_group teacher_id course_id spec.schedule)
    size ← randint random 5 9
    cohort ← sample random extra_students size
    for_each cohort (λ sid. do
      progress ← choice random progresses
      first_group ← or_raise (get_elem? group_ids 0) index_error
      seed_enrollment sid first_group progress)
    pure group_ids

-- `activities`, with the days from now to the start.
abbrev activities : List (String × ActivityType × ℕ)
activities =
    ("Региональная олимпиада по физике", competition, 14)
    ∷ ("Выставка детского рисунка", event, 7)
    ∷ ("Открытый турнир по гимнастике", competition, 21)
    ∷ []

unfoldable pub seed_activity : ℕ → String × ActivityType × ℕ → Exec Seeder (Unit {0})
seed_activity at (title, type, ahead) = do
  k ← uuid4
  let row : Activity = record {
    id = k;
    title = title;
    type = type;
    description = some "Демо-мероприятие центра.";
    starts_at = some (at + days ahead);
    ends_at = some (at + days ahead + 3 * 3600);
    created_at = at;
  }
  execute (λ db. record db { activities = db.activities ++ row ∷ [] })

-- `[100, 60, 30][i]` for the groups in turn
unfoldable pub seed_demo_group : ℕ → ℕ × ℕ → Exec Seeder (Unit {0})
unfolding seed_enrollment
seed_demo_group student_id (i, group_id) = do
  progress ← or_raise (get_elem? (100 ∷ 60 ∷ 30 ∷ []) i) index_error
  seed_enrollment student_id group_id progress

abbrev demo_codes : List String
demo_codes = "first_step" ∷ "halfway" ∷ "course_done" ∷ "streak_7" ∷ "explorer" ∷ []

-- `xs[:n]`
abbrev take : {A : Type 0} → ℕ → List A → List A
take zero xs = []
take (suc n) [] = []
take (suc n) (x ∷ xs) = x ∷ take n xs

abbrev pub concat : List (List ℕ) → List ℕ
concat [] = []
concat (xs ∷ xss) = xs ++ concat xss

-- `seed_learning` behind its loop over COURSES: the activities and the progress of the students.
unfoldable pub seed_progress : Random → ℕ → List ℕ → List (List ℕ) → Exec Seeder (Unit {0})
unfolding seed_activity seed_demo_group set_stats award_badge
seed_progress random demo_student_id extra_students groups = do
  at ← now
  for_each activities (seed_activity at)
  demo_groups ← sample random (concat groups) 3
  for_each (enumerate 0 demo_groups) (seed_demo_group demo_student_id)
  set_stats demo_student_id 420 4 7
  for_each demo_codes (award_badge demo_student_id)
  for_each (take 6 extra_students) (λ sid. do
    xp ← randint random 50 300
    level ← randint random 1 3
    streak ← randint random 0 5
    set_stats sid xp level streak
    award_badge sid "first_step")
  commit

unfoldable pub seed_learning : Postgres → Random → ℕ → ℕ → Exec Seeder (Unit {0})
unfolding person insert_student courses seed_course seed_progress
seed_learning pg random teacher_id demo_student_id = do
  extra_students ← repeat_collect 15 (person random none >>= λ p. insert_student pg random p none)
  groups ← for_collect courses (seed_course random teacher_id extra_students)
  seed_progress random demo_student_id extra_students groups
