-- ===== src/Seed/Growth.antt =====
-- Steps of the seed that only add: what is found in a table before is found after.
use mathlib.Core.Path.{subst}
use sirius_vkr.Prelude.{
  ℕ, zero, suc, Bool-cases, ◌≡◌, refl, sym, ap, ◌∙◌, Bool, true, false, ◌||◌, String, Option, none,
  some, List, [], ◌∷◌, ◌++◌, length, ◌==◌, str_eq, arith, inl, inr, is_some, if_property,
}
use sirius_vkr.Sql.{exists, first, eq_null}
use sirius_vkr.Sql.Laws.{exists-append}
use sirius_vkr.Models.Access.{User}
use sirius_vkr.Models.People.{Student}
use sirius_vkr.Models.Learning.{Badge, Course}
use sirius_vkr.Database.{Db}
use sirius_vkr.Exec.{Exec, Error, Result, ok, pure, or_raise, raise_if, ◌>>=◌}
use sirius_vkr.Exec.Laws.{bind_cases}
use sirius_vkr.Auth.Service.{get_user_by_email}
use sirius_vkr.Learning.Subjects.{resolve_student_for_user}
use sirius_vkr.Seed.State.{
  Seeder, uuid4, now, query, execute, commit, draw, for_each, for_collect, repeat_collect,
}

abbrev pub has_badge : String → Db → Bool
has_badge code db = exists (λ (x : Badge). str_eq x.code code) db.badges

-- Badges, accounts, students and courses that one state holds, another one holds.
pub record Grows (db db' : Db) : Type 0 where
  pub badge : (code : String) → has_badge code db ≡ true → has_badge code db' ≡ true
  pub account :
      (email : String) (u : User)
      → get_user_by_email email db ≡ some u
      → get_user_by_email email db' ≡ some u
  pub student :
      (k : ℕ)
      → is_some (resolve_student_for_user k db) ≡ true
      → is_some (resolve_student_for_user k db') ≡ true
  pub course : (length db.courses == 0) ≡ false → (length db'.courses == 0) ≡ false

pub Grows-refl : (db : Db) → Grows db db
Grows-refl db = record {
  badge = λ c h. h;
  account = λ e u h. h;
  student = λ k h. h;
  course = λ h. h;
}

pub Grows-trans : {a b c : Db} → Grows a b → Grows b c → Grows a c
Grows-trans g h = record {
  badge = λ c e. h.badge c (g.badge c e);
  account = λ e u x. h.account e u (g.account e u x);
  student = λ k x. h.student k (g.student k x);
  course = λ x. h.course (g.course x);
}

-- A step that grows the tables of its transaction whenever it returns.
pub record IsGrowing {A : Type 0} (m : Exec Seeder A) : Type 0 where
  pub grows :
      (w : Seeder) (a : A) → (m w).0 ≡ ok a → Grows w.session.pending (m w).1.session.pending

module _ {A : Type 0} where
  pub pure-IsGrowing : (a : A) → IsGrowing (pure a)
  pure-IsGrowing a = record { grows = λ w b h. Grows-refl w.session.pending }

  pub or_raise-IsGrowing : (o : Option A) (e : Error) → IsGrowing (or_raise o e)
  or_raise-IsGrowing none e = record { grows = λ w b h. Grows-refl w.session.pending }
  or_raise-IsGrowing (some a) e = record { grows = λ w b h. Grows-refl w.session.pending }

  pub draw-IsGrowing : (f : ℕ → A) → IsGrowing (draw f)
  draw-IsGrowing f = record { grows = λ w b h. Grows-refl w.session.pending }

  pub query-IsGrowing : (f : Db → A) → IsGrowing (query f)
  query-IsGrowing f = record { grows = λ w b h. Grows-refl w.session.pending }

pub uuid4-IsGrowing : IsGrowing uuid4
uuid4-IsGrowing = record { grows = λ w b h. Grows-refl w.session.pending }

pub now-IsGrowing : IsGrowing now
now-IsGrowing = record { grows = λ w b h. Grows-refl w.session.pending }

pub commit-IsGrowing : IsGrowing commit
commit-IsGrowing = record { grows = λ w b h. Grows-refl w.session.pending }

pub raise_if-IsGrowing : (c : Bool) (e : Error) → IsGrowing (raise_if {S = Seeder} c e)
raise_if-IsGrowing c e = record { grows = λ w b h. Grows-refl w.session.pending }

pub execute-IsGrowing : (f : Db → Db) → ((db : Db) → Grows db (f db)) → IsGrowing (execute f)
execute-IsGrowing f g = record { grows = λ w b h. g w.session.pending }

module _ {A B : Type 0} where
  pub bind-IsGrowing :
      (m : Exec Seeder A) (f : A → Exec Seeder B)
      → IsGrowing m
      → ((a : A) → IsGrowing (f a))
      → IsGrowing (m >>= f)
  bind-IsGrowing m f g h = record {
    grows = λ w b e. elim (bind_cases m f w) [
      | inl (x, raised, whole) ↦ absurd (cc)
      | inr (a, returned, whole) ↦
          subst (λ (t : Result B × Seeder). Grows w.session.pending t.1.session.pending) (sym whole)
            (Grows-trans (g.grows w a returned)
              ((h a).grows (m w).1 b (sym (ap (λ t. t.0) whole) ∙ e)))
    ];
  }

pub for_each-IsGrowing :
    {A : Type 0} (xs : List A) (f : A → Exec Seeder (Unit {0}))
    → ((a : A) → IsGrowing (f a))
    → IsGrowing (for_each xs f)
for_each-IsGrowing [] f g = pure-IsGrowing tt
for_each-IsGrowing (x ∷ xs) f g =
    bind-IsGrowing (f x) (λ _. for_each xs f) (g x) (λ _. for_each-IsGrowing xs f g)

pub for_collect-IsGrowing :
    {A B : Type 0} (xs : List A) (f : A → Exec Seeder B)
    → ((a : A) → IsGrowing (f a))
    → IsGrowing (for_collect xs f)
for_collect-IsGrowing [] f g = pure-IsGrowing []
for_collect-IsGrowing (x ∷ xs) f g = bind-IsGrowing (f x) _ (g x) (λ y.
    bind-IsGrowing (for_collect xs f) _ (for_collect-IsGrowing xs f g)
      (λ ys. pure-IsGrowing (y ∷ ys)))

pub repeat_collect-IsGrowing :
    {B : Type 0} (n : ℕ) (m : Exec Seeder B) → IsGrowing m → IsGrowing (repeat_collect n m)
repeat_collect-IsGrowing zero m g = pure-IsGrowing []
repeat_collect-IsGrowing (suc n) m g = bind-IsGrowing m _ g (λ y.
    bind-IsGrowing (repeat_collect n m) _ (repeat_collect-IsGrowing n m g)
      (λ ys. pure-IsGrowing (y ∷ ys)))

-- The step leaves the four tables alone.
pub Grows-other :
    (db db' : Db)
    → db'.badges ≡ db.badges
    → db'.users ≡ db.users
    → db'.students ≡ db.students
    → db'.courses ≡ db.courses
    → Grows db db'
unfolding get_user_by_email resolve_student_for_user
Grows-other db db' b u s c = record {
  badge = λ code h. rw b h;
  account = λ e x h. rw u h;
  student = λ k h. rw s h;
  course = λ h. rw c h;
}

pub ruleset growing = (
  pure-IsGrowing, or_raise-IsGrowing, draw-IsGrowing, query-IsGrowing, uuid4-IsGrowing,
  now-IsGrowing, commit-IsGrowing, raise_if-IsGrowing, execute-IsGrowing, bind-IsGrowing,
  for_each-IsGrowing, for_collect-IsGrowing, repeat_collect-IsGrowing, Grows-other, refl,
)

first-append_some :
    {A : Type 0} (p : A → Bool) (xs ys : List A) (a : A)
    → first p xs ≡ some a
    → first p (xs ++ ys) ≡ some a
first-append_some p [] ys a h = cc
first-append_some p (x ∷ xs) ys a h = ground (arith, first-append_some p xs ys a, h)

-- Accounts behind the others.
pub Grows-users : (us : List User) (db : Db) → Grows db (record db { users = db.users ++ us })
unfolding get_user_by_email resolve_student_for_user
Grows-users us db = record {
  badge = λ c h. h;
  account = λ e u h. first-append_some (λ (v : User). str_eq v.email e) db.users us u h;
  student = λ k h. h;
  course = λ h. h;
}

pub Grows-badge_rows :
    (bs : List Badge) (db : Db) → Grows db (record db { badges = db.badges ++ bs })
unfolding get_user_by_email resolve_student_for_user
Grows-badge_rows bs db = record {
  badge = λ c h.
      exists-append (λ (x : Badge). str_eq x.code c) db.badges bs
      ∙ ap (λ b. b || exists (λ (x : Badge). str_eq x.code c) bs) h;
  account = λ e u h. h;
  student = λ k h. h;
  course = λ h. h;
}

student_found :
    (k : ℕ) (ss ts : List Student)
    → is_some (
        let o : Option ℕ = elim (first (λ (s : Student). eq_null s.user_id k) ss) [
          | none ↦ none
          | some s ↦ some s.id
        ] in
        o)
      ≡ true
    → is_some (
        let o : Option ℕ = elim (first (λ (s : Student). eq_null s.user_id k) (ss ++ ts)) [
          | none ↦ none
          | some s ↦ some s.id
        ] in
        o)
      ≡ true
student_found k [] ts h = cc
student_found k (s ∷ ss) ts h = elim (Bool-cases (eq_null s.user_id k)) [
  | inl here ↦ rw here refl
  | inr there ↦ rw there (student_found k ss ts (rw there at h))
]

pub Grows-students :
    (ts : List Student) (db : Db) → Grows db (record db { students = db.students ++ ts })
unfolding get_user_by_email resolve_student_for_user
Grows-students ts db = record {
  badge = λ c h. h;
  account = λ e u h. h;
  student = λ k. student_found k db.students ts;
  course = λ h. h;
}

courses_left : (cs ds : List Course) → (length cs == 0) ≡ false → (length (cs ++ ds) == 0) ≡ false
courses_left [] ds h = cc
courses_left (c ∷ cs) ds h = ground arith

pub Grows-courses :
    (cs : List Course) (db : Db) → Grows db (record db { courses = db.courses ++ cs })
unfolding get_user_by_email resolve_student_for_user
Grows-courses cs db = record {
  badge = λ c h. h;
  account = λ e u h. h;
  student = λ k h. h;
  course = courses_left db.courses cs;
}
