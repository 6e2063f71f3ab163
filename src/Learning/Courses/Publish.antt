-- ===== src/Learning/Courses/Publish.antt =====
-- What publication does to the courses: publish_course and its handler.
use sirius_vkr.Prelude.{
  ℕ, ◌≡◌, refl, ap, ◌∙◌, true, false, not, none, List, [], ◌∷◌, All, arith, ◌==◌,
}
use sirius_vkr.Sql.{select, exists, count_where, update_where}
use sirius_vkr.Sql.Laws.{
  All-map, All-first, All-select, count_where_pos, update_where_none, exists-map,
  exists-update_where, first_found,
}
use sirius_vkr.Sql.Order.{exists-order_by, All-order_by}
use sirius_vkr.Models.Learning.{Course, is_archived, published}
use sirius_vkr.Database.{Db}
use sirius_vkr.Exec.{ok, err, http_exception}
use sirius_vkr.Session.{Session}
use sirius_vkr.Postgres.{Postgres}
use sirius_vkr.Schemas.Learning.{CourseSummary}
use sirius_vkr.Learning.Courses.{
  course_summary, of_direction, list_courses, publishable, set_published, publish_course,
  publish_course_route,
}

-- With no course of the id that is not archived the handler answers 404 and the courses are
-- committed as they were.
publish_course_refused :
    (pg : Postgres) (k : ℕ) (s : Session)
    → exists (publishable k) s.pending.courses ≡ false
    → ((publish_course_route pg k s).0 ≡ err (http_exception 404))
      × ((publish_course_route pg k s).1.committed.courses ≡ s.pending.courses)
unfolding publish_course_route publish_course
publish_course_refused pg k s h =
    let same = update_where_none (publishable k) (set_published s.clock) s.pending.courses h in
    let no_rows : (count_where (publishable k) s.pending.courses == 0) ≡ true =
      ground (arith, count_where_pos (publishable k) s.pending.courses, h) in
    rw no_rows (refl, same)

archived_kept :
    (k at : ℕ) (cs : List Course)
    → select (λ c. is_archived c.status) (update_where (publishable k) (set_published at) cs)
      ≡ select (λ c. is_archived c.status) cs
unfolding publishable set_published
archived_kept k at [] = refl
archived_kept k at (c ∷ cs) = ground (arith, archived_kept k at cs)

others_kept :
    (k at : ℕ) (cs : List Course)
    → select (λ c. not (c.id == k)) (update_where (publishable k) (set_published at) cs)
      ≡ select (λ c. not (c.id == k)) cs
unfolding publishable set_published
others_kept k at [] = refl
others_kept k at (c ∷ cs) = ground (arith, others_kept k at cs)

-- Publication leaves the archived courses, and the courses with another id, as they were.
publish_course_keeps :
    (pg : Postgres) (k : ℕ) (s : Session)
    → let after = (publish_course pg k s).1.committed.courses in
      (select (λ c. is_archived c.status) after
        ≡ select (λ c. is_archived c.status) s.pending.courses)
      × (select (λ c. not (c.id == k)) after ≡ select (λ c. not (c.id == k)) s.pending.courses)
unfolding publish_course
publish_course_keeps pg k s =
    (archived_kept k s.clock s.pending.courses, others_kept k s.clock s.pending.courses)

-- A course with the id is not archived.
abbrev pub Live : ℕ → Course → Type 0
Live k c = (c.id == k) ≡ true → is_archived c.status ≡ false

abbrev Shown : ℕ → CourseSummary → Type 0
Shown k c = (c.id == k) ≡ true → (c.id ≡ k) × (c.status ≡ published)

select_every : (cs : List Course) → select (of_direction none) cs ≡ cs
unfolding of_direction
select_every [] = refl
select_every (c ∷ cs) = ap (λ ds. c ∷ ds) (select_every cs)

published_rows :
    (k at : ℕ) (cs : List Course)
    → All (Live k) cs
    → All
        (λ c. (c.id == k) ≡ true → (c.id ≡ k) × (c.status ≡ published))
        (update_where (publishable k) (set_published at) cs)
unfolding publishable set_published
published_rows k at [] h = tt
published_rows k at (c ∷ cs) h = (ground (arith, h.0), published_rows k at cs h.1)

any_publishable :
    (k : ℕ) (cs : List Course)
    → exists (publishable k) cs ≡ true
    → exists (λ c. c.id == k) cs ≡ true
unfolding publishable
any_publishable k [] h = h
any_publishable k (c ∷ cs) h = ground (arith, any_publishable k cs, h)

exists-list_courses :
    (pg : Postgres) (k : ℕ) (db : Db)
    → exists (λ c. c.id == k) (list_courses pg none db) ≡ exists (λ c. c.id == k) db.courses
unfolding list_courses course_summary
exists-list_courses pg k db =
    exists-map (λ c. c.id == k) (course_summary db) _
    ∙ exists-order_by (λ a b. pg.text_le a.title b.title) (λ c. c.id == k) _
    ∙ ap (exists (λ (c : Course). c.id == k)) (select_every db.courses)

All-list_courses :
    (pg : Postgres) (k : ℕ) (db : Db)
    → All (λ c. (c.id == k) ≡ true → (c.id ≡ k) × (c.status ≡ published)) db.courses
    → All (Shown k) (list_courses pg none db)
unfolding list_courses course_summary
All-list_courses pg k db h = All-map (Shown k) (course_summary db) _ (
    All-order_by (λ a b. pg.text_le a.title b.title) _ _
      (All-select (λ c. (c.id == k) ≡ true → (c.id ≡ k) × (c.status ≡ published))
        (of_direction none) db.courses h))

-- With a course of the id that is not archived, and no archived one of the same id, the handler
-- answers with the course of that id and its status is published.
pub publish_course_found :
    (pg : Postgres) (k : ℕ) (s : Session)
    → exists (publishable k) s.pending.courses ≡ true
    → All (Live k) s.pending.courses
    → (c : CourseSummary) × ((publish_course_route pg k s).0 ≡ ok c)
      × (c.id ≡ k)
      × (c.status ≡ published)
unfolding publish_course_route publish_course set_published
publish_course_found pg k s h live =
    let db = (publish_course pg k s).1.pending in
    let some_rows : (count_where (publishable k) s.pending.courses == 0) ≡ false =
      ground (arith, count_where_pos (publishable k) s.pending.courses, h) in
    let (c, e, test) =
      first_found (λ c. c.id == k) (list_courses pg none db)
        (exists-list_courses pg k db
          ∙ exists-update_where (publishable k) (λ c. c.id == k) (set_published s.clock)
              s.pending.courses (λ c. refl)
          ∙ any_publishable k s.pending.courses h) in
    let shown =
      All-first (Shown k) (λ c. c.id == k) (list_courses pg none db) c
        (All-list_courses pg k db (published_rows k s.clock s.pending.courses live)) e test in
    (c, rw (some_rows, e) refl, shown.0, shown.1)
