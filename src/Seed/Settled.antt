-- ===== src/Seed/Settled.antt =====
-- A seed that returns has committed everything that it wrote.
use sirius_vkr.Prelude.{ℕ, ◌≡◌, refl, Option, none, some, List, length, ◌==◌, inl, inr, Bool-cases}
use sirius_vkr.Models.Access.{child, parent, teacher}
use sirius_vkr.Exec.{Exec, ok, pure, ◌>>=◌}
use sirius_vkr.Config.{Settings}
use sirius_vkr.Security.{Packages}
use sirius_vkr.Postgres.{Postgres}
use sirius_vkr.Learning.Subjects.{resolve_student_for_user}
use sirius_vkr.Seed.{demo_student, seed_once, seed_contents, seed}
use sirius_vkr.Seed.Catalogue.{demo_teacher_email, demo_child_email, demo_parent_email, badges}
use sirius_vkr.Seed.State.{Random, Seeder, commit, for_each}
use sirius_vkr.Seed.People.{ensure_user}
use sirius_vkr.Seed.Contents.{insert_badge, seed_progress, seed_learning}
use sirius_vkr.Seed.Establishes.{bind_then}
use sirius_vkr.Seed.Outcome.{with_parent, with_child, with_teacher}

-- When the part returns, what this transaction sees is what others see.
pub record Settles {A : Type 0} (m : Exec Seeder A) : Type 0 where
  pub settled :
      (w : Seeder) (a : A) → (m w).0 ≡ ok a → (m w).1.session.committed ≡ (m w).1.session.pending

right-Settles :
    {A B : Type 0} (m : Exec Seeder A) (f : A → Exec Seeder B)
    → ((a : A) → Settles (f a))
    → Settles (m >>= f)
right-Settles m f h = record {
  settled = λ w b e.
      bind_then (λ t. t.session.committed ≡ t.session.pending) m f w b e
        (λ a _ r. (h a).settled (m w).1 b r);
}

commit-Settles : Settles commit
commit-Settles = record { settled = λ w a e. refl }

commit-pure-Settles : {A : Type 0} (a : A) → Settles (commit >>= λ _. pure a)
commit-pure-Settles a = record { settled = λ w b e. refl }

module _ (pg : Postgres) (random : Random) where
  seed_progress-Settles :
      (student : ℕ) (extra : List ℕ) (groups : List (List ℕ))
      → Settles (seed_progress random student extra groups)
  unfolding seed_progress
  seed_progress-Settles student extra groups = search (right-Settles, commit-Settles) depth 20

  seed_learning-Settles : (t s : ℕ) → Settles (seed_learning pg random t s)
  unfolding seed_learning
  seed_learning-Settles t s = search (right-Settles, seed_progress-Settles) depth 20

  new_student-Settles : (c p : ℕ) → Settles (demo_student pg random c p none)
  unfolding demo_student
  new_student-Settles c p = search (right-Settles, commit-pure-Settles) depth 20

  student_settled :
      (c p : ℕ) (found : Option ℕ) (w : Seeder) (k : ℕ)
      → w.session.committed ≡ w.session.pending
      → (demo_student pg random c p found w).0 ≡ ok k
      → (demo_student pg random c p found w).1.session.committed
        ≡ (demo_student pg random c p found w).1.session.pending
  unfolding demo_student
  student_settled c p none w k e h = (new_student-Settles c p).settled w k h
  student_settled c p (some s) w k e h = e

  once_settled :
      (t s count : ℕ) (w : Seeder)
      → w.session.committed ≡ w.session.pending
      → (seed_once pg random t s count w).0 ≡ ok tt
      → (seed_once pg random t s count w).1.session.committed
        ≡ (seed_once pg random t s count w).1.session.pending
  unfolding seed_once
  once_settled t s count w e = elim (Bool-cases (count == 0)) [
    | inl zero ↦ rw zero ((seed_learning-Settles t s).settled w tt)
    | inr more ↦ rw more (λ _. e)
  ]

  contents-Settles : (t c p : ℕ) → Settles (seed_contents pg random t c p)
  unfolding seed_contents
  contents-Settles t c p = record {
    settled = λ w a h.
        let w0 : Seeder = record w {
          session = record w.session { committed = w.session.pending };
        } in
        let m = demo_student pg random c p (resolve_student_for_user c w.session.pending) in
        bind_then (λ v. v.session.committed ≡ v.session.pending) m
          (λ s v. seed_once pg random t s (length v.session.pending.courses) v) w0 a h
          (λ s e r.
            once_settled t s (length (m w0).1.session.pending.courses) (m w0).1
              (student_settled c p (resolve_student_for_user c w.session.pending) w0 s refl e) r);
  }

  seed-Settles :
      (packages : Packages) (settings : Settings) → Settles (seed pg random packages settings)
  unfolding seed
  seed-Settles packages settings =
      right-Settles (for_each badges insert_badge) (λ _. with_teacher pg random packages settings)
        (λ _.
          right-Settles (ensure_user packages settings demo_teacher_email teacher)
            (with_child pg random packages settings)
            (λ t.
              right-Settles (ensure_user packages settings demo_child_email child)
                (with_parent pg random packages settings t)
                (λ c.
                  right-Settles (ensure_user packages settings demo_parent_email parent)
                    (seed_contents pg random t c) (contents-Settles t c))))

  -- A seed that returns has committed its tables.
  pub seed_settles :
      (packages : Packages) (settings : Settings) (w : Seeder)
      → (seed pg random packages settings w).0 ≡ ok tt
      → (seed pg random packages settings w).1.session.committed
        ≡ (seed pg random packages settings w).1.session.pending
  seed_settles packages settings w = (seed-Settles packages settings).settled w tt
