-- ===== src/Seed/Stages.antt =====
-- seed_demo.py: what the student of the demo child and the guard on the catalogue leave in the tables.
use sirius_vkr.Prelude.{ℕ, ◌≡◌, ap, Option, none, some, length, ◌==◌, inl, inr, Bool-cases, is_some}
use sirius_vkr.Exec.{ok}
use sirius_vkr.Postgres.{Postgres}
use sirius_vkr.Learning.Subjects.{resolve_student_for_user}
use sirius_vkr.Seed.{demo_student, seed_once}
use sirius_vkr.Seed.State.{Random, Seeder}
use sirius_vkr.Seed.Growth.{IsGrowing, growing}
use sirius_vkr.Seed.Growing.{
  person-IsGrowing, insert_student-IsGrowing, insert_guardian-IsGrowing, seed_learning-IsGrowing,
}
use sirius_vkr.Seed.Establishes.{
  Establishes, right-Establishes, left-Establishes, HasStudent, HasStudent-stable, HasCourse,
  insert_student-Establishes, seed_learning-Establishes,
}

module _ (pg : Postgres) (random : Random) where
  pub demo_student-IsGrowing :
      (child_id parent_id : ℕ) (found : Option ℕ)
      → IsGrowing (demo_student pg random child_id parent_id found)
  unfolding demo_student
  demo_student-IsGrowing child_id parent_id none =
      search (growing, person-IsGrowing, insert_student-IsGrowing, insert_guardian-IsGrowing) depth
        20
  demo_student-IsGrowing child_id parent_id (some k) = search growing

  new_student-Establishes :
      (child_id parent_id : ℕ)
      → Establishes (HasStudent child_id) (demo_student pg random child_id parent_id none)
  unfolding demo_student
  new_student-Establishes child_id parent_id =
      search
        (
          right-Establishes (HasStudent child_id),
          left-Establishes (HasStudent child_id),
          HasStudent-stable child_id,
          insert_student-Establishes,
          insert_guardian-IsGrowing,
          growing,
        )
        depth 20

  pub demo_student-HasStudent :
      (child_id parent_id : ℕ) (found : Option ℕ) (w : Seeder) (k : ℕ)
      → resolve_student_for_user child_id w.session.pending ≡ found
      → (demo_student pg random child_id parent_id found w).0 ≡ ok k
      → HasStudent child_id (demo_student pg random child_id parent_id found w).1.session.pending
  unfolding demo_student
  demo_student-HasStudent child_id parent_id none w k e h =
      (new_student-Establishes child_id parent_id).holds w k h
  demo_student-HasStudent child_id parent_id (some s) w k e h = ap is_some e

  pub seed_once-IsGrowing :
      (teacher_id student_id count : ℕ)
      → IsGrowing (seed_once pg random teacher_id student_id count)
  unfolding seed_once
  seed_once-IsGrowing teacher_id student_id count = elim (Bool-cases (count == 0)) [
    | inl zero ↦ rw zero (seed_learning-IsGrowing pg random teacher_id student_id)
    | inr more ↦ rw more (search growing)
  ]

  pub seed_once-HasCourse :
      (teacher_id student_id : ℕ) (w : Seeder)
      → (seed_once pg random teacher_id student_id (length w.session.pending.courses) w).0 ≡ ok tt
      → HasCourse
          (seed_once pg random teacher_id student_id
            (length w.session.pending.courses)
            w).1.session.pending
  unfolding seed_once
  seed_once-HasCourse teacher_id student_id w =
      elim (Bool-cases (length w.session.pending.courses == 0)) [
        | inl zero ↦
            rw zero ((seed_learning-Establishes pg random teacher_id student_id).holds w tt)
        | inr more ↦ rw more (λ _. more)
      ]
