-- ===== src/Seed/Live.antt =====
-- seed_demo.py raises nothing where the roles exist: the contents of the portals.
use sirius_vkr.Prelude.{ℕ, ◌≤◌, ◌<◌, ◌≡◌, none, List, length, arith, All, All-always}
use sirius_vkr.Exec.{Exec, pure, ◌>>=◌, ◌>>◌, or_raise, index_error}
use sirius_vkr.Postgres.{Postgres}
use sirius_vkr.Seed.Catalogue.{CourseSpec, courses}
use sirius_vkr.Seed.State.{
  Random, Seeder, for_each, for_collect, repeat_collect, enumerate, get_elem?, randint, choice,
  sample,
}
use sirius_vkr.Seed.People.{person, insert_student}
use sirius_vkr.Seed.Contents.{
  seed_group, seed_course, seed_enrollment, seed_demo_group, seed_progress, seed_learning,
  set_stats, award_badge, progresses, concat,
}
use sirius_vkr.Seed.Returns.{
  ReturnsWith, Returns, returns, bind-ReturnsWith, bind-Returns, pure-ReturnsWith,
  randint-ReturnsWith, choice-Returns, sample-ReturnsWith, for_each-Returns, for_all-Returns,
  for_collect-ReturnsWith, repeat_collect-ReturnsWith, elem-Returns,
}
use sirius_vkr.Seed.Runs.{
  person-Returns, insert_student-Returns, seed_module-Returns, seed_group-Returns,
  seed_enrollment-Returns, seed_activity-Returns, seed_demo_group-Returns, set_stats-Returns,
  award_badge-Returns, enumerate_lt, length-enumerate, length-concat,
}

then-ReturnsWith :
    {A B : Type 0} (Q : B → Type 0) (m : Exec Seeder A) (f : A → Exec Seeder B)
    → Returns m
    → ((a : A) → ReturnsWith Q (f a))
    → ReturnsWith Q (m >>= f)
then-ReturnsWith Q m f g h = bind-ReturnsWith (λ _. Unit {0}) Q m f g (λ a _. h a)

-- A list that is not empty.
abbrev Given : {A : Type 0} → List A → Type 0
Given xs = 0 < length xs

module _ (random : Random) where
  -- One enrollment of the cohort.
  cohort-Returns :
      (group_ids : List ℕ) (sid : ℕ)
      → Given group_ids
      → Returns (do
        progress ← choice random progresses
        first_group ← or_raise (get_elem? group_ids 0) index_error
        seed_enrollment sid first_group progress)
  cohort-Returns group_ids sid h =
      bind-Returns (choice random progresses) _ (choice-Returns random progresses (omega arith))
        (λ progress.
          bind-Returns (or_raise (get_elem? group_ids 0) index_error) _ (elem-Returns group_ids 0 h)
            (λ first_group. seed_enrollment-Returns sid first_group progress))

  -- `seed_course` behind its groups.
  enrolled-ReturnsWith :
      (extra group_ids : List ℕ)
      → 9 ≤ length extra
      → Given group_ids
      → ReturnsWith Given (do
        size ← randint random 5 9
        cohort ← sample random extra size
        for_each cohort (λ sid. do
          progress ← choice random progresses
          first_group ← or_raise (get_elem? group_ids 0) index_error
          seed_enrollment sid first_group progress)
        pure group_ids)
  enrolled-ReturnsWith extra group_ids enough h =
      bind-ReturnsWith _ Given (randint random 5 9) _ (randint-ReturnsWith random 5 9 (omega arith))
        (λ size (low, high).
          bind-ReturnsWith _ Given (sample random extra size) _
            (sample-ReturnsWith random extra size (omega arith))
            (λ cohort _.
              then-ReturnsWith Given (for_each cohort _) _
                (for_all-Returns cohort _ (λ sid. cohort-Returns group_ids sid h))
                (λ _. pure-ReturnsWith Given group_ids h)))

  groups-ReturnsWith :
      (teacher course : ℕ) (spec : CourseSpec)
      → Given spec.groups
      → ReturnsWith Given
          (for_collect (enumerate 0 spec.groups) (seed_group teacher course spec.schedule))
  groups-ReturnsWith teacher course spec h = record {
    outcome = λ w roles.
        let o =
          (for_collect-ReturnsWith (λ _. Unit {0}) (λ _. Unit {0}) (enumerate 0 spec.groups)
              (seed_group teacher course spec.schedule) (All-always _ _ (λ _. tt))
              (λ g _. seed_group-Returns teacher course spec.schedule g)).outcome
            w roles in
        record {
          value = o.value;
          returned = o.returned;
          property = omega (arith, o.property.1, length-enumerate 0 spec.groups, h);
          roles_left = o.roles_left;
        };
  }

  seed_course-ReturnsWith :
      (teacher : ℕ) (extra : List ℕ) (spec : CourseSpec)
      → 9 ≤ length extra
      → Given spec.groups
      → ReturnsWith Given (seed_course random teacher extra spec)
  unfolding seed_course
  seed_course-ReturnsWith teacher extra spec enough h =
      search
        (
          returns,
          then-ReturnsWith Given,
          bind-ReturnsWith Given Given,
          groups-ReturnsWith,
          enrolled-ReturnsWith,
          seed_module-Returns,
        )
        depth 20

  -- The loop over the groups of the demo child.
  demo_groups-Returns :
      (student : ℕ) (gids : List ℕ)
      → length gids ≡ 3
      → Returns (for_each (enumerate 0 gids) (seed_demo_group student))
  demo_groups-Returns student gids h =
      for_each-Returns (λ t. t.0 < 3) (enumerate 0 gids) (seed_demo_group student)
        (enumerate_lt 0 3 gids (omega arith))
        (λ (i, gid) lt. seed_demo_group-Returns student i gid lt)

  -- The stats of one of the other students.
  stats-Returns :
      (sid : ℕ)
      → Returns (do
        xp ← randint random 50 300
        level ← randint random 1 3
        streak ← randint random 0 5
        set_stats sid xp level streak
        award_badge sid "first_step")
  stats-Returns sid = search (returns, set_stats-Returns, award_badge-Returns) depth 20

  sampled_groups-ReturnsWith :
      (groups : List (List ℕ))
      → All Given groups
      → 3 ≤ length groups
      → ReturnsWith (λ gids. length gids ≡ 3) (sample random (concat groups) 3)
  sampled_groups-ReturnsWith groups given enough =
      sample-ReturnsWith random (concat groups) 3 (omega (arith, length-concat groups given))

  seed_progress-Returns :
      (student : ℕ) (extra : List ℕ) (groups : List (List ℕ))
      → All Given groups
      → 3 ≤ length groups
      → Returns (seed_progress random student extra groups)
  unfolding seed_progress
  seed_progress-Returns student extra groups given enough =
      search
        (
          bind-ReturnsWith (λ (gids : List ℕ). length gids ≡ 3) (λ (_ : Unit {0}). Unit {0}),
          sampled_groups-ReturnsWith groups given enough,
          demo_groups-Returns,
          stats-Returns,
          seed_activity-Returns,
          set_stats-Returns,
          award_badge-Returns,
          returns,
        )
        depth 20

-- Every course of COURSES has a group.
courses-Given : All (λ (spec : CourseSpec). Given spec.groups) courses × (3 ≤ length courses)
unfolding courses
courses-Given = ((omega arith, (omega arith, (omega arith, tt))), omega arith)

module _ (pg : Postgres) (random : Random) where
  extra-ReturnsWith :
      ReturnsWith
        (λ ids. length ids ≡ 15)
        (repeat_collect 15 (person random none >>= λ p. insert_student pg random p none))
  extra-ReturnsWith = repeat_collect-ReturnsWith 15 _ (
      bind-Returns (person random none) _ (person-Returns random none)
        (λ p. insert_student-Returns pg random p none))

  courses-ReturnsWith :
      (teacher : ℕ) (extra : List ℕ)
      → 9 ≤ length extra
      → ReturnsWith
          (λ groups. All Given groups × (length groups ≡ length courses))
          (for_collect courses (seed_course random teacher extra))
  courses-ReturnsWith teacher extra enough =
      for_collect-ReturnsWith (λ (spec : CourseSpec). Given spec.groups) Given courses
        (seed_course random teacher extra) courses-Given.0
        (λ spec given. seed_course-ReturnsWith random teacher extra spec enough given)

  pub seed_learning-Returns :
      (teacher student : ℕ) → Returns (seed_learning pg random teacher student)
  unfolding seed_learning
  seed_learning-Returns teacher student =
      bind-ReturnsWith (λ ids. length ids ≡ 15) _
        (repeat_collect 15 (person random none >>= λ p. insert_student pg random p none)) _
        extra-ReturnsWith
        (λ extra many.
          bind-ReturnsWith _ _ (for_collect courses (seed_course random teacher extra)) _
            (courses-ReturnsWith teacher extra (omega arith))
            (λ groups (given, same).
              seed_progress-Returns random student extra groups given
                (omega (arith, same, courses-Given.1))))
