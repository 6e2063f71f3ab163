-- ===== src/Seed/Complete.antt =====
-- seed_demo.py raises nothing where the roles exist: the whole seed.
use sirius_vkr.Prelude.{
  ℕ, ◌≡◌, false, Option, none, some, String, [], ◌∷◌, ◌==◌, inl, inr, Bool-cases,
}
use sirius_vkr.Models.Access.{RoleName, child, parent, teacher}
use sirius_vkr.Database.{Db}
use sirius_vkr.Exec.{ok}
use sirius_vkr.Config.{Settings}
use sirius_vkr.Security.{Packages}
use sirius_vkr.Postgres.{Postgres}
use sirius_vkr.Auth.Service.{unknown_role}
use sirius_vkr.Seed.{demo_student, seed_once, seed_contents, seed}
use sirius_vkr.Seed.Catalogue.{demo_teacher_email, demo_child_email, demo_parent_email, badges}
use sirius_vkr.Seed.State.{Random, Seeder, for_each}
use sirius_vkr.Seed.People.{ensure_user}
use sirius_vkr.Seed.Contents.{insert_badge}
use sirius_vkr.Seed.Accounts.{ensure_user_ok}
use sirius_vkr.Seed.Returns.{
  HasRoles, HasRoles-same, Returns, returns, bind-Returns, for_all-Returns,
}
use sirius_vkr.Seed.Runs.{
  person-Returns, insert_student-Returns, insert_guardian-Returns, insert_badge-Returns,
}
use sirius_vkr.Seed.Live.{seed_learning-Returns}
use sirius_vkr.Seed.Outcome.{with_parent, with_child, with_teacher}

module _ (pg : Postgres) (random : Random) where
  demo_student-Returns : (c p : ℕ) (found : Option ℕ) → Returns (demo_student pg random c p found)
  unfolding demo_student
  demo_student-Returns c p none =
      search (returns, person-Returns, insert_student-Returns, insert_guardian-Returns) depth 20
  demo_student-Returns c p (some k) = search returns

  seed_once-Returns : (t s count : ℕ) → Returns (seed_once pg random t s count)
  unfolding seed_once
  seed_once-Returns t s count = elim (Bool-cases (count == 0)) [
    | inl zero ↦ rw zero (seed_learning-Returns pg random t s)
    | inr more ↦ rw more (search returns)
  ]

  seed_contents-Returns : (t c p : ℕ) → Returns (seed_contents pg random t c p)
  unfolding seed_contents
  seed_contents-Returns t c p = search (returns, demo_student-Returns, seed_once-Returns) depth 20

module _ (packages : Packages) (settings : Settings) where
  ensure_user-Returns :
      (email : String) (role : RoleName)
      → ((db : Db) → HasRoles db → unknown_role (role ∷ []) db ≡ false)
      → Returns (ensure_user packages settings email role)
  ensure_user-Returns email role known = record {
    outcome = λ w roles.
        let (k, returned, same) =
          ensure_user_ok packages settings email role w (known w.session.pending roles) in
        record {
          value = k;
          returned = returned;
          property = tt;
          roles_left =
              HasRoles-same w.session.pending
                (ensure_user packages settings email role w).1.session.pending same roles;
        };
  }

  -- Where the three roles exist the seed returns, whatever the tables hold and the generator answers.
  pub seed_returns :
      (pg : Postgres) (random : Random) (w : Seeder)
      → HasRoles w.session.pending
      → (seed pg random packages settings w).0 ≡ ok tt
  unfolding seed
  seed_returns pg random w roles = (seed-Returns.outcome w roles).returned
    where
      seed-Returns : Returns (seed pg random packages settings)
      seed-Returns =
          bind-Returns (for_each badges insert_badge)
            (λ _. with_teacher pg random packages settings)
            (for_all-Returns badges insert_badge insert_badge-Returns)
            (λ _.
              bind-Returns (ensure_user packages settings demo_teacher_email teacher)
                (with_child pg random packages settings)
                (ensure_user-Returns demo_teacher_email teacher (λ db h. h.has_teacher))
                (λ t.
                  bind-Returns (ensure_user packages settings demo_child_email child)
                    (with_parent pg random packages settings t)
                    (ensure_user-Returns demo_child_email child (λ db h. h.has_child))
                    (λ c.
                      bind-Returns (ensure_user packages settings demo_parent_email parent)
                        (seed_contents pg random t c)
                        (ensure_user-Returns demo_parent_email parent (λ db h. h.has_parent))
                        (seed_contents-Returns pg random t c))))
