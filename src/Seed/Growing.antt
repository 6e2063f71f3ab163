-- ===== src/Seed/Growing.antt =====
-- Every part of the seed only adds to the badges, accounts, students and courses.
use sirius_vkr.Prelude.{ℕ, Bool, String, Option, none, some, List, str_eq, if_property}
use sirius_vkr.Sql.{exists}
use sirius_vkr.Models.Learning.{ActivityType, Badge}
use sirius_vkr.Database.{Db}
use sirius_vkr.Postgres.{Postgres}
use sirius_vkr.Seed.Catalogue.{LessonSpec, ModuleSpec, SlotSpec, CourseSpec, BadgeSpec}
use sirius_vkr.Seed.State.{Random}
use sirius_vkr.Seed.People.{
  Person, person, is_female, phone, birth_date, insert_student, insert_guardian,
}
use sirius_vkr.Seed.Contents.{
  add_badge, insert_badge, seed_lesson, seed_module, seed_slot, seed_group, seed_course,
  seed_enrollment, add_enrollment, seed_activity, seed_demo_group, set_stats, award_badge,
  seed_progress, seed_learning,
}
use sirius_vkr.Seed.Growth.{
  IsGrowing, growing, Grows, Grows-refl, Grows-badge_rows, Grows-students, Grows-courses,
}

phone-IsGrowing : (random : Random) → IsGrowing (phone random)
unfolding phone
phone-IsGrowing random = search growing

is_female-IsGrowing : (random : Random) (sex : Option Bool) → IsGrowing (is_female random sex)
unfolding is_female
is_female-IsGrowing random none = search growing
is_female-IsGrowing random (some female) = search growing

pub person-IsGrowing : (random : Random) (sex : Option Bool) → IsGrowing (person random sex)
unfolding person
person-IsGrowing random sex = search (growing, is_female-IsGrowing) depth 20

birth_date-IsGrowing : (random : Random) → IsGrowing (birth_date random)
unfolding birth_date
birth_date-IsGrowing random = search growing

pub insert_student-IsGrowing :
    (pg : Postgres) (random : Random) (p : Person) (user_id : Option ℕ)
    → IsGrowing (insert_student pg random p user_id)
unfolding insert_student
insert_student-IsGrowing pg random p user_id =
    search (growing, phone-IsGrowing, birth_date-IsGrowing, Grows-students)

pub insert_guardian-IsGrowing :
    (pg : Postgres) (random : Random) (p : Person) (user_id student_id : ℕ)
    → IsGrowing (insert_guardian pg random p user_id student_id)
unfolding insert_guardian
insert_guardian-IsGrowing pg random p user_id student_id = search (growing, phone-IsGrowing)

Grows-add_badge : (k : ℕ) (b : BadgeSpec) (db : Db) → Grows db (add_badge k b db)
unfolding add_badge
Grows-add_badge k b db =
    if_property (λ (bs : List Badge). Grows db (record db { badges = bs }))
      (exists (λ (x : Badge). str_eq x.code b.code) db.badges) db.badges _ (λ _. Grows-refl db)
      (λ _. Grows-badge_rows _ db)

pub insert_badge-IsGrowing : (b : BadgeSpec) → IsGrowing (insert_badge b)
unfolding insert_badge
insert_badge-IsGrowing b = search (growing, Grows-add_badge)

seed_lesson-IsGrowing :
    (title : String) (k m : ℕ) (spec : ℕ × LessonSpec) → IsGrowing (seed_lesson title k m spec)
unfolding seed_lesson
seed_lesson-IsGrowing title k m spec = search growing

pub seed_module-IsGrowing :
    (title : String) (k : ℕ) (spec : ℕ × ModuleSpec) → IsGrowing (seed_module title k spec)
unfolding seed_module
seed_module-IsGrowing title k spec = search (growing, seed_lesson-IsGrowing)

seed_slot-IsGrowing : (k : ℕ) (slot : SlotSpec) → IsGrowing (seed_slot k slot)
unfolding seed_slot
seed_slot-IsGrowing k slot = search growing

pub seed_group-IsGrowing :
    (teacher course : ℕ) (slots : List SlotSpec) (spec : ℕ × String)
    → IsGrowing (seed_group teacher course slots spec)
unfolding seed_group
seed_group-IsGrowing teacher course slots spec = search (growing, seed_slot-IsGrowing) depth 20

Grows-add_enrollment :
    (k at sid gid progress : ℕ) (db : Db) → Grows db (add_enrollment k at sid gid progress db)
unfolding add_enrollment
Grows-add_enrollment k at sid gid progress db = search growing

pub seed_enrollment-IsGrowing :
    (sid gid progress : ℕ) → IsGrowing (seed_enrollment sid gid progress)
unfolding seed_enrollment
seed_enrollment-IsGrowing sid gid progress = search (growing, Grows-add_enrollment)

pub seed_course-IsGrowing :
    (random : Random) (teacher : ℕ) (students : List ℕ) (spec : CourseSpec)
    → IsGrowing (seed_course random teacher students spec)
unfolding seed_course
seed_course-IsGrowing random teacher students spec =
    search
      (
        growing, Grows-courses, seed_module-IsGrowing, seed_group-IsGrowing,
        seed_enrollment-IsGrowing,
      )
      depth 30

seed_activity-IsGrowing :
    (at : ℕ) (spec : String × ActivityType × ℕ) → IsGrowing (seed_activity at spec)
unfolding seed_activity
seed_activity-IsGrowing at spec = search growing

seed_demo_group-IsGrowing : (k : ℕ) (spec : ℕ × ℕ) → IsGrowing (seed_demo_group k spec)
unfolding seed_demo_group
seed_demo_group-IsGrowing k spec = search (growing, seed_enrollment-IsGrowing)

set_stats-IsGrowing : (k xp level streak : ℕ) → IsGrowing (set_stats k xp level streak)
unfolding set_stats
set_stats-IsGrowing k xp level streak = search growing

award_badge-IsGrowing : (k : ℕ) (code : String) → IsGrowing (award_badge k code)
unfolding award_badge
award_badge-IsGrowing k code = search growing

pub seed_progress-IsGrowing :
    (random : Random) (student : ℕ) (extra : List ℕ) (groups : List (List ℕ))
    → IsGrowing (seed_progress random student extra groups)
unfolding seed_progress
seed_progress-IsGrowing random student extra groups =
    search
      (
        growing, seed_activity-IsGrowing, seed_demo_group-IsGrowing, set_stats-IsGrowing,
        award_badge-IsGrowing,
      )
      depth 30

pub seed_learning-IsGrowing :
    (pg : Postgres) (random : Random) (teacher student : ℕ)
    → IsGrowing (seed_learning pg random teacher student)
unfolding seed_learning
seed_learning-IsGrowing pg random teacher student =
    search
      (
        growing, person-IsGrowing, insert_student-IsGrowing, seed_course-IsGrowing,
        seed_progress-IsGrowing,
      )
      depth 30
