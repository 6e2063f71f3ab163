-- ===== src/Seed.antt =====
-- seed_demo.py: the demo accounts and the demo contents of the learning portals.
pub mod Catalogue
pub mod State
pub mod Letters
pub mod Translit
pub mod People
pub mod Contents
pub mod Growth
pub mod Growing
pub mod Accounts
mod Establishes
mod Stages
pub mod Outcome
pub mod Settled
pub mod Again
pub mod Returns
pub mod Runs
mod Live
pub mod Complete
use sirius_vkr.Prelude.{ℕ, Bool, true, false, Option, none, some, length, ◌==◌, if◌then◌else◌}
use sirius_vkr.Models.Access.{child, parent, teacher}
use sirius_vkr.Exec.{Exec, pure, ◌>>=◌, ◌>>◌}
use sirius_vkr.Config.{Settings}
use sirius_vkr.Security.{Packages}
use sirius_vkr.Postgres.{Postgres}
use sirius_vkr.Learning.Subjects.{resolve_student_for_user}
use sirius_vkr.Seed.Catalogue.{demo_teacher_email, demo_child_email, demo_parent_email, badges}
use sirius_vkr.Seed.State.{Random, Seeder, query, commit, for_each}
use sirius_vkr.Seed.People.{Person, person, ensure_user, insert_student, insert_guardian}
use sirius_vkr.Seed.Contents.{insert_badge, seed_learning}

abbrev child_person : Person
child_person = record { last_name = "Соколов"; first_name = "Егор"; middle_name = "Андреевич" }

abbrev parent_person : Person
parent_person = record { last_name = "Соколова"; first_name = "Мария"; middle_name = "Ивановна" }

module _ (pg : Postgres) (random : Random) where
  -- The student of the demo child, by the one that was found. All three names of the drawn person
  -- are replaced.
  unfoldable pub demo_student : ℕ → ℕ → Option ℕ → Exec Seeder ℕ
  unfolding person insert_student insert_guardian
  demo_student child_id parent_id (some k) = pure k
  demo_student child_id parent_id none = do
    _ ← person random (some false)
    k ← insert_student pg random child_person (some child_id)
    insert_guardian pg random parent_person parent_id k
    commit
    pure k

  -- The guard on an empty catalogue.
  unfoldable pub seed_once : ℕ → ℕ → ℕ → Exec Seeder (Unit {0})
  unfolding seed_learning
  seed_once teacher_id student_id count =
      if count == 0 then seed_learning pg random teacher_id student_id else pure tt

  -- `seed` from the commit of the accounts on.
  unfoldable pub seed_contents : ℕ → ℕ → ℕ → Exec Seeder (Unit {0})
  unfolding resolve_student_for_user demo_student seed_once
  seed_contents teacher_id child_id parent_id = do
    commit
    found ← query (resolve_student_for_user child_id)
    student_id ← demo_student child_id parent_id found
    count ← query (λ db. length db.courses)
    seed_once teacher_id student_id count

  -- `seed`, without the banner that `_log_credentials` prints.
  unfoldable pub seed : Packages → Settings → Exec Seeder (Unit {0})
  unfolding badges insert_badge ensure_user seed_contents
  seed packages settings = do
    for_each badges insert_badge
    teacher_id ← ensure_user packages settings demo_teacher_email teacher
    child_id ← ensure_user packages settings demo_child_email child
    parent_id ← ensure_user packages settings demo_parent_email parent
    seed_contents teacher_id child_id parent_id
