-- ===== src/Learning/Courses/Creation.antt =====
-- A course is read back as it was created: create_course and get_course_detail.
use sirius_vkr.Prelude.{
  ℕ, ◌≡◌, refl, ap, ◌∙◌, Bool, false, some, List, [], ◌∷◌, map, arith, ◌==◌, ==_refl,
}
use sirius_vkr.Sql.{select, exists, count_where, inner_join}
use sirius_vkr.Sql.Laws.{first-append_none, select_none, exists_none, count_where-append}
use sirius_vkr.Models.Learning.{Course, Module, Lesson}
use sirius_vkr.Database.{Db}
use sirius_vkr.Exec.{ok}
use sirius_vkr.Session.{Session}
use sirius_vkr.Postgres.{Postgres}
use sirius_vkr.Schemas.Learning.{CourseSummary, CourseCreate}
use sirius_vkr.Learning.Courses.{
  lessons_count, course_summary, lesson_rows, group_rows, course_detail, get_course_detail,
  new_course, create_course,
}

count_where_none :
    {A : Type 0} (p : A → Bool) (xs : List A) → exists p xs ≡ false → count_where p xs ≡ 0
count_where_none p [] h = refl
count_where_none p (x ∷ xs) h = ground (arith, count_where_none p xs, h)

module _ {A B : Type 0} (p : A → B → Bool) (q : B → Bool) where
  paired_none :
      (x : A) (ys : List B)
      → exists q ys ≡ false
      → count_where (λ (row : A × B). q row.1) (map (λ y. (x, y)) (select (p x) ys)) ≡ 0
  paired_none x [] h = refl
  paired_none x (y ∷ ys) h = ground (arith, paired_none x ys, h)

  -- A join has no row for a test on the right that no row on the right passes.
  inner_join_none :
      (xs : List A) (ys : List B)
      → exists q ys ≡ false
      → count_where (λ (row : A × B). q row.1) (inner_join p xs ys) ≡ 0
  inner_join_none [] ys h = refl
  inner_join_none (x ∷ xs) ys h =
      count_where-append (λ (row : A × B). q row.1) (map (λ y. (x, y)) (select (p x) ys))
        (inner_join p xs ys)
      ∙ omega (arith, paired_none x ys h, inner_join_none xs ys h)

-- A course that nothing refers to has no groups, modules and lessons in its detail.
detail_empty :
    (pg : Postgres) (db : Db) (c : Course)
    → exists (λ g. g.course_id == c.id) db.groups ≡ false
    → exists (λ m. m.course_id == c.id) db.modules ≡ false
    → course_detail pg db c ≡ record {
      summary = record {
        id = c.id;
        title = c.title;
        direction = c.direction;
        description = c.description;
        status = c.status;
        author_id = c.author_id;
        groups_count = 0;
        lessons_count = 0;
      };
      modules = [];
      groups = [];
    }
unfolding course_detail course_summary lessons_count lesson_rows group_rows
detail_empty pg db c no_group no_module =
    rw
      (
        select_none (λ g. g.course_id == c.id) db.groups (exists_none _ db.groups no_group),
        select_none (λ m. m.course_id == c.id) db.modules (exists_none _ db.modules no_module),
        count_where_none (λ g. g.course_id == c.id) db.groups no_group,
        inner_join_none (λ (l : Lesson) (m : Module). m.id == l.module_id)
            (λ m. m.course_id == c.id) db.lessons db.modules no_module,
      )
      refl

-- Where no course has the id drawn and no group and module refers to it, create_course answers with
-- a summary, and the detail of the course in the database that it commits is that summary with no
-- modules and no groups.
pub create_course-get_course_detail :
    (pg : Postgres) (body : CourseCreate) (author : ℕ) (s : Session)
    → exists (λ c. c.id == s.fresh s.drawn) s.pending.courses ≡ false
    → exists (λ g. g.course_id == s.fresh s.drawn) s.pending.groups ≡ false
    → exists (λ m. m.course_id == s.fresh s.drawn) s.pending.modules ≡ false
    → let (r, s') = create_course body author s in
      (summary : CourseSummary) × (r ≡ ok summary)
      × (get_course_detail pg (s.fresh s.drawn) s'.committed
          ≡ some (record { summary = summary; modules = []; groups = [] }))
unfolding create_course get_course_detail new_course
create_course-get_course_detail pg body author s unused no_group no_module =
    let k = s.fresh s.drawn in
    let c = new_course body k author s.clock in
    let after = (create_course body author s).1.committed in
    (
      _,
      refl,
      rw
          (
            first-append_none (λ (d : Course). d.id == k) s.pending.courses (c ∷ []) unused,
            ==_refl k,
          )
          (ap some (detail_empty pg after c no_group no_module)),
    )
