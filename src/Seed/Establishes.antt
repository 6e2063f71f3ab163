-- ===== src/Seed/Establishes.antt =====
-- What a part of the seed leaves in the tables when it returns.
use mathlib.Core.Path.{subst}
use sirius_vkr.Prelude.{
  ℕ, ◌≡◌, refl, sym, ap, ◌∙◌, true, false, Option, none, some, List, [], ◌∷◌, ◌++◌, length, ◌==◌,
  ==_refl, str_eq, str_eq_refl, arith, inl, inr, is_some, Bool-cases, All,
}
use sirius_vkr.Sql.{exists, first, eq_null}
use sirius_vkr.Sql.Laws.{exists-append}
use sirius_vkr.Models.People.{Student}
use sirius_vkr.Models.Learning.{Badge, Course}
use sirius_vkr.Database.{Db}
use sirius_vkr.Exec.{Exec, Result, ok, ◌>>=◌}
use sirius_vkr.Exec.Laws.{bind_cases}
use sirius_vkr.Postgres.{Postgres}
use sirius_vkr.Learning.Subjects.{resolve_student_for_user}
use sirius_vkr.Seed.Catalogue.{BadgeSpec, CourseSpec, courses}
use sirius_vkr.Seed.State.{Random, Seeder, uuid4, execute, for_each, for_collect, repeat_collect}
use sirius_vkr.Seed.People.{Person, person, insert_student}
use sirius_vkr.Seed.Contents.{add_badge, insert_badge, seed_course, seed_learning}
use sirius_vkr.Seed.Growth.{
  Grows, IsGrowing, has_badge, growing, for_each-IsGrowing, for_collect-IsGrowing, bind-IsGrowing,
  pure-IsGrowing,
}
use sirius_vkr.Seed.Growing.{
  insert_badge-IsGrowing, seed_course-IsGrowing, seed_progress-IsGrowing, seed_module-IsGrowing,
  seed_group-IsGrowing, seed_enrollment-IsGrowing,
}

-- A bind that returns ends as its second part does, on the result of the first.
pub bind_then :
    {A B : Type 0} (Q : Seeder → Type 0) (m : Exec Seeder A) (f : A → Exec Seeder B) (w : Seeder)
    (b : B)
    → ((m >>= f) w).0 ≡ ok b
    → ((a : A) → (m w).0 ≡ ok a → (f a (m w).1).0 ≡ ok b → Q (f a (m w).1).1)
    → Q ((m >>= f) w).1
bind_then {B = B} Q m f w b h k = elim (bind_cases m f w) [
  | inl (x, raised, whole) ↦ absurd (cc)
  | inr (a, returned, whole) ↦
      subst (λ (t : Result B × Seeder). Q t.1) (sym whole)
        (k a returned (sym (ap (λ t. t.0) whole) ∙ h))
]

-- The tables have a property when the part returns.
pub record Establishes {A : Type 0} (P : Db → Type 0) (m : Exec Seeder A) : Type 0 where
  pub holds : (w : Seeder) (a : A) → (m w).0 ≡ ok a → P (m w).1.session.pending

module _ (P : Db → Type 0) where
  execute-Establishes : (f : Db → Db) → ((db : Db) → P (f db)) → Establishes P (execute f)
  execute-Establishes f h = record { holds = λ w a e. h w.session.pending }

  pub right-Establishes :
      {A B : Type 0} (m : Exec Seeder A) (f : A → Exec Seeder B)
      → ((a : A) → Establishes P (f a))
      → Establishes P (m >>= f)
  right-Establishes m f h = record {
    holds =
        λ w b e. bind_then (λ t. P t.session.pending) m f w b e (λ a _ r. (h a).holds (m w).1 b r);
  }

  pub left-Establishes :
      {A B : Type 0} (m : Exec Seeder A) (f : A → Exec Seeder B)
      → ((db db' : Db) → Grows db db' → P db → P db')
      → Establishes P m
      → ((a : A) → IsGrowing (f a))
      → Establishes P (m >>= f)
  left-Establishes m f stable h g = record {
    holds = λ w b e.
        bind_then (λ t. P t.session.pending) m f w b e
          (λ a returned r.
            stable (m w).1.session.pending (f a (m w).1).1.session.pending ((g a).grows (m w).1 b r)
              (h.holds w a returned));
  }

abbrev pub HasBadge : BadgeSpec → Db → Type 0
HasBadge b db = has_badge b.code db ≡ true

HasBadge-add_badge : (k : ℕ) (b : BadgeSpec) (db : Db) → HasBadge b (add_badge k b db)
unfolding add_badge
HasBadge-add_badge k b db =
    elim (Bool-cases (exists (λ (x : Badge). str_eq x.code b.code) db.badges)) [
      | inl here ↦ rw here here
      | inr there ↦ rw there (
          exists-append (λ (x : Badge). str_eq x.code b.code) db.badges _
          ∙ rw (there, str_eq_refl b.code) refl)
    ]

insert_badge-Establishes : (b : BadgeSpec) → Establishes (HasBadge b) (insert_badge b)
unfolding insert_badge
insert_badge-Establishes b =
    right-Establishes (HasBadge b) uuid4 (λ k. execute (add_badge k b))
      (λ k. execute-Establishes (HasBadge b) (add_badge k b) (HasBadge-add_badge k b))

-- Every badge of a list is there after its loop.
pub badges-Establishes :
    (bs : List BadgeSpec)
    → Establishes (λ db. All (λ b. HasBadge b db) bs) (for_each bs insert_badge)
badges-Establishes [] = record { holds = λ w a e. tt }
badges-Establishes (b ∷ bs) = record {
  holds = λ w a e.
      bind_then (λ t. All (λ b. HasBadge b t.session.pending) (b ∷ bs)) (insert_badge b)
        (λ _. for_each bs insert_badge) w a e
        (λ _ returned r. (
          ((for_each-IsGrowing bs insert_badge insert_badge-IsGrowing).grows (insert_badge b w).1 a
                r).badge
              b.code ((insert_badge-Establishes b).holds w tt returned),
          (badges-Establishes bs).holds (insert_badge b w).1 a r,
        ));
}

-- An account has a student.
abbrev pub HasStudent : ℕ → Db → Type 0
HasStudent k db = is_some (resolve_student_for_user k db) ≡ true

student_last :
    (k : ℕ) (ss : List Student) (s : Student)
    → s.user_id ≡ some k
    → is_some (
        let o : Option ℕ = elim (first (λ (s : Student). eq_null s.user_id k) (ss ++ s ∷ [])) [
          | none ↦ none
          | some s ↦ some s.id
        ] in
        o)
      ≡ true
student_last k [] s h = let own : eq_null s.user_id k ≡ true = rw h (==_refl k) in rw own refl
student_last k (x ∷ ss) s h = elim (Bool-cases (eq_null x.user_id k)) [
  | inl here ↦ rw here refl
  | inr there ↦ rw there (student_last k ss s h)
]

HasStudent-append :
    (k : ℕ) (s : Student) (db : Db)
    → s.user_id ≡ some k
    → HasStudent k (record db { students = db.students ++ s ∷ [] })
unfolding resolve_student_for_user
HasStudent-append k s db h = student_last k db.students s h

pub HasStudent-stable : (k : ℕ) (db db' : Db) → Grows db db' → HasStudent k db → HasStudent k db'
HasStudent-stable k db db' g h = g.student k h

pub insert_student-Establishes :
    (pg : Postgres) (random : Random) (p : Person) (k : ℕ)
    → Establishes (HasStudent k) (insert_student pg random p (some k))
unfolding insert_student
insert_student-Establishes pg random p k =
    search
      (
        right-Establishes (HasStudent k),
        left-Establishes (HasStudent k),
        HasStudent-stable k,
        execute-Establishes (HasStudent k),
        HasStudent-append k,
        growing,
      )
      depth 30

-- The catalogue of courses is not empty.
abbrev pub HasCourse : Db → Type 0
HasCourse db = (length db.courses == 0) ≡ false

HasCourse-append : (c : Course) (db : Db) → HasCourse (record db { courses = db.courses ++ c ∷ [] })
HasCourse-append c db = course_last db.courses c
  where
    course_last : (cs : List Course) (c : Course) → (length (cs ++ c ∷ []) == 0) ≡ false
    course_last [] c = refl
    course_last (d ∷ cs) c = ground arith

HasCourse-stable : (db db' : Db) → Grows db db' → HasCourse db → HasCourse db'
HasCourse-stable db db' g = g.course

seed_course-Establishes :
    (random : Random) (teacher : ℕ) (students : List ℕ) (spec : CourseSpec)
    → Establishes HasCourse (seed_course random teacher students spec)
unfolding seed_course
seed_course-Establishes random teacher students spec =
    search
      (
        right-Establishes HasCourse,
        left-Establishes HasCourse,
        HasCourse-stable,
        execute-Establishes HasCourse,
        HasCourse-append,
        seed_module-IsGrowing,
        seed_group-IsGrowing,
        seed_enrollment-IsGrowing,
        growing,
      )
      depth 30

for_collect-Establishes :
    {A B : Type 0} (xs : List A) (f : A → Exec Seeder B)
    → (length xs == 0) ≡ false
    → ((a : A) → Establishes HasCourse (f a))
    → ((a : A) → IsGrowing (f a))
    → Establishes HasCourse (for_collect xs f)
for_collect-Establishes [] f e h g = cc
for_collect-Establishes (x ∷ xs) f e h g =
    left-Establishes HasCourse (f x) _ HasCourse-stable (h x) (λ y.
      bind-IsGrowing (for_collect xs f) _ (for_collect-IsGrowing xs f g)
        (λ ys. pure-IsGrowing (y ∷ ys)))

courses-Given : (length courses == 0) ≡ false
unfolding courses
courses-Given = refl

courses-Establishes :
    (random : Random) (teacher : ℕ) (students : List ℕ)
    → Establishes HasCourse (for_collect courses (seed_course random teacher students))
courses-Establishes random teacher students =
    for_collect-Establishes courses (seed_course random teacher students) courses-Given
      (seed_course-Establishes random teacher students)
      (seed_course-IsGrowing random teacher students)

pub seed_learning-Establishes :
    (pg : Postgres) (random : Random) (teacher student : ℕ)
    → Establishes HasCourse (seed_learning pg random teacher student)
unfolding seed_learning
seed_learning-Establishes pg random teacher student =
    right-Establishes HasCourse
      (repeat_collect 15 (person random none >>= λ p. insert_student pg random p none)) _
      (λ students.
        left-Establishes HasCourse (for_collect courses (seed_course random teacher students)) _
          HasCourse-stable (courses-Establishes random teacher students)
          (seed_progress-IsGrowing random student students))
