-- ===== src/Seed/Again.antt =====
-- seed_demo.py run a second time.
use sirius_vkr.Prelude.{
  ℕ, ◌≡◌, refl, sym, ap, ◌∙◌, suc, true, false, Option, none, some, List, [], ◌∷◌, length, ◌==◌,
  All, is_some,
}
use sirius_vkr.Models.Access.{child, parent, teacher}
use sirius_vkr.Exec.{ok}
use sirius_vkr.Exec.Laws.{bind_ok}
use sirius_vkr.Config.{Settings}
use sirius_vkr.Security.{Packages}
use sirius_vkr.Postgres.{Postgres}
use sirius_vkr.Learning.Subjects.{resolve_student_for_user}
use sirius_vkr.Seed.{demo_student, seed_contents, seed_once, seed}
use sirius_vkr.Seed.Catalogue.{
  BadgeSpec, demo_teacher_email, demo_child_email, demo_parent_email, badges,
}
use sirius_vkr.Seed.State.{Random, Seeder, for_each}
use sirius_vkr.Seed.People.{ensure_user}
use sirius_vkr.Seed.Contents.{add_badge, insert_badge}
use sirius_vkr.Seed.Accounts.{ensure_user_found}
use sirius_vkr.Seed.Establishes.{HasBadge, HasStudent, HasCourse}
use mathlib.Core.Path.{subst}
use sirius_vkr.Seed.Settled.{seed_settles}
use sirius_vkr.Seed.Outcome.{IsSeeded, with_parent, with_child, with_teacher, seed-IsSeeded}

-- The state once some more ids have been drawn.
abbrev skip : ℕ → Seeder → Seeder
skip n w = record w { session = record w.session { drawn = n } }

insert_badge_idle :
    (b : BadgeSpec) (w : Seeder)
    → HasBadge b w.session.pending
    → insert_badge b w ≡ (ok tt, skip (suc w.session.drawn) w)
unfolding insert_badge add_badge
insert_badge_idle b w h = rw h refl

-- The loop over badges that are there writes none.
badges_idle :
    (bs : List BadgeSpec) (w : Seeder)
    → All (λ (b : BadgeSpec). HasBadge b w.session.pending) bs
    → (n : ℕ) × (for_each bs insert_badge w ≡ (ok tt, skip n w))
badges_idle [] w h = (w.session.drawn, refl)
badges_idle (b ∷ bs) w (h, hs) =
    let (n, rest) = badges_idle bs (skip (suc w.session.drawn) w) hs in
    (
      n,
      bind_ok (insert_badge b) (λ _. for_each bs insert_badge) w (skip (suc w.session.drawn) w) tt
            (insert_badge_idle b w h)
          ∙ rest,
    )

module _ (pg : Postgres) (random : Random) where
  -- The state once the tables are committed.
  abbrev committed : Seeder → Seeder
  committed w = record w { session = record w.session { committed = w.session.pending } }

  demo_student_idle :
      (child_id parent_id : ℕ) (found : Option ℕ) (w : Seeder)
      → is_some found ≡ true
      → (k : ℕ) × (demo_student pg random child_id parent_id found w ≡ (ok k, w))
  unfolding demo_student
  demo_student_idle child_id parent_id none w h = absurd (cc)
  demo_student_idle child_id parent_id (some k) w h = (k, refl)

  seed_once_idle :
      (t s count : ℕ) (w : Seeder)
      → (count == 0) ≡ false
      → seed_once pg random t s count w ≡ (ok tt, w)
  unfolding seed_once
  seed_once_idle t s count w h = rw h refl

  contents_idle :
      (t c p : ℕ) (w : Seeder)
      → HasStudent c w.session.pending
      → HasCourse w.session.pending
      → seed_contents pg random t c p w ≡ (ok tt, committed w)
  unfolding seed_contents
  contents_idle t c p w student course =
      let found = resolve_student_for_user c w.session.pending in
      let (k, idle) = demo_student_idle c p found (committed w) student in
      bind_ok (demo_student pg random c p found)
        (λ s v. seed_once pg random t s (length v.session.pending.courses) v) (committed w)
        (committed w) k idle
      ∙ seed_once_idle t k (length w.session.pending.courses) (committed w) course

  -- On tables that hold the demo contents a seed draws ids and commits, and that is all.
  pub seed_idle :
      (packages : Packages) (settings : Settings) (w : Seeder)
      → IsSeeded w.session.pending
      → (n : ℕ) × (seed pg random packages settings w ≡ (ok tt, committed (skip n w)))
  unfolding seed
  seed_idle packages settings w h =
      let (n, idle) = badges_idle badges w h.has_badges in
      let v = skip n w in
      let teachers =
        ensure_user_found packages settings demo_teacher_email teacher h.has_teacher.user v
          h.has_teacher.found in
      let children =
        ensure_user_found packages settings demo_child_email child h.has_child.user v
          h.has_child.found in
      let parents =
        ensure_user_found packages settings demo_parent_email parent h.has_parent.user v
          h.has_parent.found in
      (
        n,
        bind_ok (for_each badges insert_badge) (λ _. with_teacher pg random packages settings) w v
              tt idle
            ∙ bind_ok (ensure_user packages settings demo_teacher_email teacher)
                (with_child pg random packages settings) v v h.has_teacher.user.id teachers
            ∙ bind_ok (ensure_user packages settings demo_child_email child)
                (with_parent pg random packages settings h.has_teacher.user.id) v v
                h.has_child.user.id children
            ∙ bind_ok (ensure_user packages settings demo_parent_email parent)
                (seed_contents pg random h.has_teacher.user.id h.has_child.user.id) v v
                h.has_parent.user.id parents
            ∙ contents_idle h.has_teacher.user.id h.has_child.user.id h.has_parent.user.id v
                (subst (λ (k : ℕ). HasStudent k w.session.pending) (sym h.has_child.same)
                  h.has_student)
                h.has_course,
      )

module _ (pg : Postgres) (random : Random) (packages : Packages) (settings : Settings)
    (pg' : Postgres) (random' : Random) (packages' : Packages) (settings' : Settings) where
  -- Where a seed returns, a seed that starts from the tables which the first committed, with any
  -- settings, keys and random answers, returns and commits the same tables.
  pub seed_again :
      (w v : Seeder)
      → (seed pg random packages settings w).0 ≡ ok tt
      → v.session.pending ≡ (seed pg random packages settings w).1.session.committed
      → let (r, v') = seed pg' random' packages' settings' v in
        (r ≡ ok tt)
        × (v'.session.committed ≡ (seed pg random packages settings w).1.session.committed)
        × (v'.session.pending ≡ (seed pg random packages settings w).1.session.committed)
  seed_again w v h start =
      let same = start ∙ seed_settles pg random packages settings w h in
      let seeded = subst IsSeeded (sym same) (seed-IsSeeded pg random packages settings w h) in
      let (n, idle) = seed_idle pg' random' packages' settings' v seeded in
      (
        ap (λ t. t.0) idle,
        ap (λ t. t.1.session.committed) idle ∙ start,
        ap (λ t. t.1.session.pending) idle ∙ start,
      )
