-- ===== src/Learning/Courses.antt =====
-- Courses: services/learning_service.py and api/v1/courses.py.
pub mod Creation
pub mod Publish
use sirius_vkr.Prelude.{
  ℕ, Bool, true, false, not, ◌&&◌, ◌||◌, String, Option, none, some, List, [], ◌∷◌, ◌++◌, map, ◌==◌,
  ltb, leb, if◌then◌else◌,
}
use sirius_vkr.Sql.{
  select, count_where, first, update_where, order_by, eq_null_text, inner_join, left_join,
}
use sirius_vkr.Models.Learning.{Course, Module, Lesson, draft, published, is_archived}
use sirius_vkr.Database.{Db}
use sirius_vkr.Exec.{Exec, http_exception, pure, or_raise, ◌>>=◌, ◌>>◌}
use sirius_vkr.Session.{Session, commit, query, execute, uuid4, now}
use sirius_vkr.Postgres.{Postgres}
use sirius_vkr.Schemas.Learning.{
  CourseSummary, LessonItem, ModuleItem, CourseGroupRef, CourseDetail, CourseCreate,
}

-- The subquery `lessons_count`.
unfoldable pub lessons_count : Db → ℕ → ℕ
lessons_count db k =
    count_where (λ row. row.1.course_id == k)
      (inner_join (λ (l : Lesson) (m : Module). m.id == l.module_id) db.lessons db.modules)

-- A row of the query of list_courses and get_course_detail.
unfoldable pub course_summary : Db → Course → CourseSummary
unfolding lessons_count
course_summary db c = record {
  id = c.id;
  title = c.title;
  direction = c.direction;
  description = c.description;
  status = c.status;
  author_id = c.author_id;
  groups_count = count_where (λ g. g.course_id == c.id) db.groups;
  lessons_count = lessons_count db c.id;
}

-- CAST(:direction AS text) IS NULL OR c.direction = :direction
unfoldable pub of_direction : Option String → Course → Bool
of_direction none c = true
of_direction (some d) c = eq_null_text c.direction d

unfoldable pub list_courses : Postgres → Option String → Db → List CourseSummary
unfolding course_summary of_direction
list_courses pg direction db =
    map (course_summary db)
      (order_by (λ a b. pg.text_le a.title b.title) (select (of_direction direction) db.courses))

-- A row of the join of modules and lessons.
abbrev pub LessonRow : Type 0
LessonRow = Module × Option Lesson

-- ORDER BY m.position, m.created_at, l.position, l.created_at; NULL comes last.
unfoldable pub lesson_le : Option Lesson → Option Lesson → Bool
lesson_le a none = true
lesson_le none (some b) = false
lesson_le (some a) (some b) =
    ltb a.position b.position || a.position == b.position && leb a.created_at b.created_at

unfoldable pub row_le : LessonRow → LessonRow → Bool
unfolding lesson_le
row_le a b =
    ltb a.0.position b.0.position
    || a.0.position == b.0.position
      && (ltb a.0.created_at b.0.created_at
          || a.0.created_at == b.0.created_at && lesson_le a.1 b.1)

unfoldable pub lesson_rows : ℕ → Db → List LessonRow
unfolding row_le
lesson_rows k db = order_by row_le (
    left_join (λ (m : Module) (l : Lesson). l.module_id == m.id)
      (select (λ m. m.course_id == k) db.modules) db.lessons)

-- The lessons that one row adds to its module.
unfoldable pub row_lessons : Option Lesson → List LessonItem
row_lessons none = []
row_lessons (some l) =
    record {
      id = l.id;
      title = l.title;
      position = l.position;
      content = l.content;
      material_url = l.material_url;
    }
    ∷ []

-- One round of the loop over the rows, on the dict `modules` in insertion order: the module's
-- entry, made if it is not there, gets the row's lesson.
unfoldable pub add_row : LessonRow → List ModuleItem → List ModuleItem
unfolding row_lessons
add_row row [] =
    record {
      id = row.0.id;
      title = row.0.title;
      position = row.0.position;
      lessons = row_lessons row.1;
    }
    ∷ []
add_row row (m ∷ ms) =
    if m.id == row.0.id
    then record m { lessons = m.lessons ++ row_lessons row.1 } ∷ ms
    else m ∷ add_row row ms

-- The whole loop, from the dict so far.
unfoldable pub group_rows : List LessonRow → List ModuleItem → List ModuleItem
unfolding add_row
group_rows [] ms = ms
group_rows (row ∷ rows) ms = group_rows rows (add_row row ms)

unfoldable pub course_detail : Postgres → Db → Course → CourseDetail
unfolding course_summary lesson_rows group_rows
course_detail pg db c = record {
  summary = course_summary db c;
  modules = group_rows (lesson_rows c.id db) [];
  groups =
      map (λ g. record { id = g.id; name = g.name })
        (order_by (λ a b. pg.text_le a.name b.name) (select (λ g. g.course_id == c.id) db.groups));
}

unfoldable pub get_course_detail : Postgres → ℕ → Db → Option CourseDetail
unfolding course_detail
get_course_detail pg k db = elim (first (λ c. c.id == k) db.courses) [
  | none ↦ none
  | some c ↦ some (course_detail pg db c)
]

-- The row that create_course inserts.
unfoldable pub new_course : CourseCreate → ℕ → ℕ → ℕ → Course
new_course body k author at = record {
  id = k;
  title = body.title;
  direction = body.direction;
  description = body.description;
  author_id = some author;
  status = draft;
  created_at = at;
  updated_at = at;
}

unfoldable pub create_course : CourseCreate → ℕ → Exec Session CourseSummary
unfolding new_course
create_course body author = do
  k ← uuid4
  at ← now
  execute (λ db. record db { courses = db.courses ++ new_course body k author at ∷ [] })
  commit
  pure (record {
    id = k;
    title = body.title;
    direction = body.direction;
    description = body.description;
    status = draft;
    author_id = some author;
    groups_count = 0;
    lessons_count = 0;
  })

-- WHERE id = :cid AND status <> 'archived'
unfoldable pub publishable : ℕ → Course → Bool
publishable k c = c.id == k && not (is_archived c.status)

unfoldable pub set_published : ℕ → Course → Course
set_published at c = record c { status = published; updated_at = at }

unfoldable pub publish_course : Postgres → ℕ → Exec Session (Option CourseSummary)
unfolding publishable set_published list_courses
publish_course pg k = do
  at ← now
  rows ← query (λ db. count_where (publishable k) db.courses)
  execute (λ db. record db { courses = update_where (publishable k) (set_published at) db.courses })
  commit
  courses ← query (list_courses pg none)
  pure (if rows == 0 then none else first (λ c. c.id == k) courses)

-- `get_course` and `publish_course` of api/v1/courses.py: None is a 404.
unfoldable pub get_course_route : Postgres → ℕ → Exec Session CourseDetail
unfolding get_course_detail
get_course_route pg k = do
  found ← query (get_course_detail pg k)
  or_raise found (http_exception 404)

unfoldable pub publish_course_route : Postgres → ℕ → Exec Session CourseSummary
unfolding publish_course
publish_course_route pg k = do found ← publish_course pg k; or_raise found (http_exception 404)
