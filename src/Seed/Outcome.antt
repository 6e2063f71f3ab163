-- ===== src/Seed/Outcome.antt =====
-- What a seed_demo.py that returns leaves in the tables.
use sirius_vkr.Prelude.{ℕ, ◌≡◌, String, refl, List, [], ◌∷◌, length, All}
use sirius_vkr.Models.Access.{child, parent, teacher}
use sirius_vkr.Database.{Db}
use sirius_vkr.Exec.{Exec, ok, ◌>>=◌}
use sirius_vkr.Config.{Settings}
use sirius_vkr.Security.{Packages}
use sirius_vkr.Postgres.{Postgres}
use sirius_vkr.Learning.Subjects.{resolve_student_for_user}
use sirius_vkr.Seed.{demo_student, seed_contents, seed_once, seed}
use sirius_vkr.Seed.Catalogue.{
  BadgeSpec, demo_teacher_email, demo_child_email, demo_parent_email, badges,
}
use sirius_vkr.Seed.State.{Random, Seeder, for_each}
use sirius_vkr.Seed.People.{ensure_user}
use sirius_vkr.Seed.Contents.{insert_badge}
use sirius_vkr.Seed.Growth.{Grows, Grows-trans, IsGrowing, growing}
use sirius_vkr.Seed.Growing.{insert_badge-IsGrowing}
use sirius_vkr.Seed.Accounts.{HasAccount, ensure_user-IsGrowing, ensure_user-HasAccount}
use sirius_vkr.Seed.Establishes.{bind_then, HasBadge, HasStudent, HasCourse, badges-Establishes}
use sirius_vkr.Seed.Stages.{
  demo_student-IsGrowing, demo_student-HasStudent, seed_once-IsGrowing, seed_once-HasCourse,
}

-- What a seed leaves: every badge of BADGES, the three demo accounts, a student of the demo child
-- and a catalogue that is not empty.
pub record IsSeeded (db : Db) : Type 0 where
  pub has_badges : All (λ (b : BadgeSpec). HasBadge b db) badges
  pub teacher_id : ℕ
  pub child_id : ℕ
  pub parent_id : ℕ
  pub has_teacher : HasAccount demo_teacher_email teacher_id db
  pub has_child : HasAccount demo_child_email child_id db
  pub has_parent : HasAccount demo_parent_email parent_id db
  pub has_student : HasStudent child_id db
  pub has_course : HasCourse db

Grows-badges :
    {a b : Db}
    → Grows a b
    → (bs : List BadgeSpec) → All (λ (x : BadgeSpec). HasBadge x a) bs
    → All (λ (x : BadgeSpec). HasBadge x b) bs
Grows-badges g [] h = tt
Grows-badges g (x ∷ bs) h = (g.badge x.code h.0, Grows-badges g bs h.1)

Grows-HasAccount :
    {a b : Db} {email : String} {k : ℕ} → Grows a b → HasAccount email k a → HasAccount email k b
Grows-HasAccount {email = email} g h = record {
  user = h.user;
  found = g.account email h.user h.found;
  same = h.same;
}

module _ (pg : Postgres) (random : Random) (packages : Packages) (settings : Settings) where
  -- `seed` behind the teacher and the child.
  abbrev pub with_parent : ℕ → ℕ → Exec Seeder (Unit {0})
  with_parent t c =
      ensure_user packages settings demo_parent_email parent >>= λ p. seed_contents pg random t c p

  abbrev pub with_child : ℕ → Exec Seeder (Unit {0})
  with_child t = ensure_user packages settings demo_child_email child >>= λ c. with_parent t c

  abbrev pub with_teacher : Exec Seeder (Unit {0})
  with_teacher = ensure_user packages settings demo_teacher_email teacher >>= λ t. with_child t

  -- From the commit on: the student and the catalogue, and nothing is lost.
  contents_post :
      (t c p : ℕ) (w : Seeder)
      → (seed_contents pg random t c p w).0 ≡ ok tt
      → let db = (seed_contents pg random t c p w).1.session.pending in
        Grows w.session.pending db × HasStudent c db × HasCourse db
  unfolding seed_contents
  contents_post t c p w h =
      let w0 : Seeder = record w { session = record w.session { committed = w.session.pending } } in
      let found = resolve_student_for_user c w.session.pending in
      let m = demo_student pg random c p found in
      bind_then
        (λ v.
          Grows w.session.pending v.session.pending
          × HasStudent c v.session.pending
          × HasCourse v.session.pending)
        m (λ s v. seed_once pg random t s (length v.session.pending.courses) v) w0 tt h
        (λ s e r.
          let w1 = (m w0).1 in
          let n = length w1.session.pending.courses in
          let left = (seed_once-IsGrowing pg random t s n).grows w1 tt r in
          (
            Grows-trans ((demo_student-IsGrowing pg random c p found).grows w0 s e) left,
            left.student c (demo_student-HasStudent pg random c p found w0 s refl e),
            seed_once-HasCourse pg random t s w1 r,
          ))

  -- A seed that returns leaves every badge of BADGES, the three demo accounts, a student of the demo
  -- child and a catalogue that is not empty in the tables of its transaction.
  pub seed-IsSeeded :
      (w : Seeder)
      → (seed pg random packages settings w).0 ≡ ok tt
      → IsSeeded (seed pg random packages settings w).1.session.pending
  unfolding seed
  seed-IsSeeded w h =
      let Q = λ (v : Seeder). IsSeeded v.session.pending in
      let teachers = ensure_user packages settings demo_teacher_email teacher in
      let children = ensure_user packages settings demo_child_email child in
      let parents = ensure_user packages settings demo_parent_email parent in
      bind_then Q (for_each badges insert_badge) (λ _. with_teacher) w tt h
        (λ _ e1 h1.
          let w1 = (for_each badges insert_badge w).1 in
          bind_then Q teachers with_child w1 tt h1 (λ t e2 h2.
            let w2 = (teachers w1).1 in
            bind_then Q children (with_parent t) w2 tt h2 (λ c e3 h3.
              let w3 = (children w2).1 in
              bind_then Q parents (seed_contents pg random t c) w3 tt h3 (λ p e4 h4.
                let w4 = (parents w3).1 in
                let (g4, student, course) = contents_post t c p w4 h4 in
                let g3 =
                  Grows-trans
                    ((ensure_user-IsGrowing packages settings demo_parent_email parent).grows w3 p
                      e4)
                    g4 in
                let g2 =
                  Grows-trans
                    ((ensure_user-IsGrowing packages settings demo_child_email child).grows w2 c e3)
                    g3 in
                let g1 =
                  Grows-trans
                    ((ensure_user-IsGrowing packages settings demo_teacher_email teacher).grows w1 t
                      e2)
                    g2 in
                record {
                  has_badges = Grows-badges g1 badges ((badges-Establishes badges).holds w tt e1);
                  teacher_id = t;
                  child_id = c;
                  parent_id = p;
                  has_teacher =
                      Grows-HasAccount g2 (
                        ensure_user-HasAccount packages settings demo_teacher_email teacher w1 t
                          e2);
                  has_child =
                      Grows-HasAccount g3
                        (ensure_user-HasAccount packages settings demo_child_email child w2 c e3);
                  has_parent =
                      Grows-HasAccount g4
                        (ensure_user-HasAccount packages settings demo_parent_email parent w3 p e4);
                  has_student = student;
                  has_course = course;
                }))))

  seed_contents-IsGrowing : (t c p : ℕ) → IsGrowing (seed_contents pg random t c p)
  unfolding seed_contents
  seed_contents-IsGrowing t c p =
      search (growing, demo_student-IsGrowing, seed_once-IsGrowing) depth 20

  pub seed-IsGrowing : IsGrowing (seed pg random packages settings)
  unfolding seed
  seed-IsGrowing =
      search (growing, insert_badge-IsGrowing, ensure_user-IsGrowing, seed_contents-IsGrowing) depth
        20
