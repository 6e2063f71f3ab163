-- ===== src/Tests/Starts.antt =====
-- Witnesses for the demo contents and the start of the API.
use sirius_vkr.Prelude.{
  ℕ, zero, suc, ◌+◌, ◌≤◌, ◌<◌, ◌≡◌, refl, ap, true, false, some, List, [], ◌∷◌, length, All, arith,
}
use sirius_vkr.Models.Access.{admin}
use sirius_vkr.Database.{Db}
use sirius_vkr.Exec.{ok}
use sirius_vkr.Auth.Roles.{roles_by_name}
use sirius_vkr.Auth.Service.{unknown_role}
use sirius_vkr.Config.{Settings}
use sirius_vkr.Seed.{seed}
use sirius_vkr.Seed.State.{Random, Seeder}
use sirius_vkr.Seed.Returns.{HasRoles}
use sirius_vkr.Seed.Complete.{seed_returns}
use sirius_vkr.Seed.Outcome.{IsSeeded, seed-IsSeeded}
use sirius_vkr.Seed.Again.{seed_again}
use sirius_vkr.App.{Process, startup}
use sirius_vkr.App.Start.{tables}
use sirius_vkr.App.Again.{startup_again}
use sirius_vkr.Tests.Instances.{pg, packages, settings}
use sirius_vkr.Tests.Data.{db}

-- The first numbers, from one on.
abbrev range : ℕ → ℕ → List ℕ
range k zero = []
range k (suc n) = k ∷ range (suc k) n

length-range : (k n : ℕ) → length (range k n) ≡ n
length-range k zero = refl
length-range k (suc n) = ap suc (length-range (suc k) n)

range_lt : (k m n : ℕ) → k + m ≤ n → All (λ (i : ℕ). i < n) (range k m)
range_lt k zero n h = tt
range_lt k (suc m) n h = (omega arith, range_lt (suc k) m n (omega arith))

-- A generator that always gives the least answer.
abbrev random : Random
random = record {
  randint = λ k lo hi. lo;
  choice = λ k n. 0;
  sample = λ k n m. range 0 m;
  randint_bounds = λ k lo hi h. (omega arith, h);
  choice_lt = λ k n h. h;
  sample_length = λ k n m h. length-range 0 m;
  sample_lt = λ k n m h. range_lt 0 m n (omega arith);
}

-- The school of the other runs, before it has a course.
abbrev fresh_db : Db
fresh_db = record db { courses = [] }

abbrev seeder : Seeder
seeder = record {
  session = record {
    committed = fresh_db;
    pending = fresh_db;
    clock = 1000;
    fresh = λ n. 100 + n;
    drawn = 0;
  };
  draws = 0;
}

roles_there : HasRoles fresh_db
unfolding unknown_role roles_by_name
roles_there = record { has_teacher = refl; has_child = refl; has_parent = refl }

admin_there : unknown_role (admin ∷ []) fresh_db ≡ false
unfolding unknown_role roles_by_name
admin_there = refl

seed_returns_example : (seed pg random packages settings seeder).0 ≡ ok tt
seed_returns_example = seed_returns packages settings pg random seeder roles_there

seed-IsSeeded_example : IsSeeded (seed pg random packages settings seeder).1.session.pending
seed-IsSeeded_example = seed-IsSeeded pg random packages settings seeder seed_returns_example

-- The tables after a seed of the school.
abbrev seeded : Seeder
seeded = (seed pg random packages settings seeder).1

seed_again_example :
    let v : Seeder = record seeder {
      session = record seeded.session { pending = seeded.session.committed; drawn = 500 };
    } in
    let (r, v') = seed pg random packages (record settings { seed_demo_password = "other" }) v in
    (r ≡ ok tt)
    × (v'.session.committed ≡ seeded.session.committed)
    × (v'.session.pending ≡ seeded.session.committed)
seed_again_example =
    seed_again pg random packages settings pg random packages
      (record settings { seed_demo_password = "other" }) seeder
      (record seeder {
        session = record seeded.session { pending = seeded.session.committed; drawn = 500 };
      })
      seed_returns_example refl

-- A first start with an admin and the demo contents asked for, on a Redis that does not answer.
abbrev host : Process
host = record {
  seeder = seeder;
  server = record { group_answered = false; add_answered = false; has_group = false; entries = [] };
  has_client = false;
  postgres_answers = true;
  redis_answers = false;
}

abbrev full : Settings
full = record settings {
  bootstrap_admin_email = some "root@b.ru";
  bootstrap_admin_password = some "password";
  seed_demo = true;
}

startup_again_example :
    let p = (startup pg random packages full host).1 in
    ((startup pg random packages full host).0 ≡ ok tt)
    × ((startup pg random packages full p).0 ≡ ok tt)
    × (tables (startup pg random packages full p).1 ≡ tables p)
unfolding startup
startup_again_example =
    startup_again pg packages full random random host (startup pg random packages full host).1 refl
      refl (roles_there, admin_there) refl
