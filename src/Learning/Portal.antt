-- ===== src/Learning/Portal.antt =====
-- The child and parent portal: services/learning_service.py and api/v1/portal.py.
pub mod Access
use sirius_vkr.Prelude.{
  ℕ, ◌*◌, Bool, true, false, not, ◌&&◌, ◌||◌, String, Option, none, some, List, [], ◌∷◌, map,
  length, ◌==◌, if◌then◌else◌,
}
use sirius_vkr.Sql.{select, count_where, first, order_by, member, round_avg, inner_join}
use sirius_vkr.Models.Access.{RoleName, child, parent, User}
use sirius_vkr.Models.People.{Student}
use sirius_vkr.Models.Learning.{
  Course, Group, Enrollment, Badge, is_active_status, is_completed_status,
}
use sirius_vkr.Database.{Db}
use sirius_vkr.Exec.{Exec, http_exception, pure, raise, ◌>>=◌}
use sirius_vkr.Session.{Session, query}
use sirius_vkr.Postgres.{Postgres, student_name}
use sirius_vkr.Schemas.Learning.{
  DashboardCourse, DashboardResponse, BadgeItem, AchievementsResponse, ChildItem,
}
use sirius_vkr.Auth.Roles.{has_role, role_names}
use sirius_vkr.Learning.Subjects.{
  resolve_student_for_user, children_rows, resolve_children_ids, display_name, stats,
}

unfoldable pub dashboard_course : (Enrollment × Group) × Course → DashboardCourse
dashboard_course row = record {
  course_id = row.1.id;
  course_title = row.1.title;
  direction = row.1.direction;
  group_name = row.0.1.name;
  progress = row.0.0.progress;
  status = row.0.0.status;
}

-- ORDER BY c.title
unfoldable pub dashboard_courses : Postgres → ℕ → Db → List DashboardCourse
unfolding dashboard_course
dashboard_courses pg k db = map dashboard_course (
    order_by (λ a b. pg.text_le a.1.title b.1.title)
      (inner_join (λ (pair : Enrollment × Group) (c : Course). c.id == pair.1.course_id)
        (inner_join (λ (e : Enrollment) (g : Group). g.id == e.group_id)
          (select (λ e. e.student_id == k) db.enrollments) db.groups)
        db.courses))

unfoldable pub get_dashboard : Postgres → ℕ → Db → DashboardResponse
unfolding dashboard_courses display_name stats
get_dashboard pg k db =
    let courses = dashboard_courses pg k db in
    record {
      student_id = k;
      student_name = display_name pg k db;
      xp = (stats k db).xp;
      level = (stats k db).level;
      streak_days = (stats k db).streak_days;
      active_courses = count_where (λ c. is_active_status c.status) courses;
      completed_courses = count_where (λ c. is_completed_status c.status) courses;
      courses = courses;
    }

-- The LEFT JOIN with core.student_badges, whose key (student_id, badge_id) matches once at most.
unfoldable pub badge_item : ℕ → Db → Badge → BadgeItem
badge_item k db b =
    let award = first (λ sb. sb.badge_id == b.id && sb.student_id == k) db.student_badges in
    record {
      code = b.code;
      title = b.title;
      description = b.description;
      icon = b.icon;
      earned = elim award [ none ↦ false | some _ ↦ true ];
      awarded_at = elim award [ none ↦ none | some sb ↦ some sb.awarded_at ];
    }

-- ORDER BY earned DESC, b.code
unfoldable pub badge_le : Postgres → BadgeItem → BadgeItem → Bool
badge_le pg a b = a.earned && not b.earned || (not b.earned || a.earned) && pg.text_le a.code b.code

unfoldable pub get_achievements : Postgres → ℕ → Db → AchievementsResponse
unfolding badge_item badge_le stats
get_achievements pg k db = record {
  student_id = k;
  xp = (stats k db).xp;
  level = (stats k db).level;
  streak_days = (stats k db).streak_days;
  next_level_xp = (stats k db).level * 100;
  badges = order_by (badge_le pg) (map (badge_item k db) db.badges);
}

-- A row of the query of list_children.
unfoldable pub child_item : Postgres → Db → Student → ChildItem
child_item pg db t =
    let es = select (λ e. e.student_id == t.id) db.enrollments in
    let st = first (λ s. s.student_id == t.id) db.student_stats in
    record {
      student_id = t.id;
      student_name = student_name pg t;
      xp = elim st [ none ↦ 0 | some s ↦ s.xp ];
      level = elim st [ none ↦ 1 | some s ↦ s.level ];
      courses_count = length es;
      avg_progress = round_avg (map (λ e. e.progress) es);
    }

-- DISTINCT, of rows that are equal where their student_id is
unfoldable pub distinct_children : List ChildItem → List ChildItem
distinct_children [] = []
distinct_children (c ∷ cs) =
    let rest = distinct_children cs in
    if member c.student_id (map (λ d. d.student_id) cs) then rest else c ∷ rest

unfoldable pub list_children : Postgres → ℕ → Db → List ChildItem
unfolding child_item distinct_children children_rows
list_children pg uid db =
    order_by (λ a b. pg.text_le a.student_name b.student_name)
      (distinct_children (map (child_item pg db) (children_rows uid db)))

-- The first branch of `_resolve_target_student`: the caller's own record, where it is asked for.
unfoldable pub own_target : Bool → Option ℕ → Option ℕ → Option ℕ
own_target false own asked = none
own_target true none asked = none
own_target true (some k) none = some k
own_target true (some k) (some j) = if j == k then some k else none

-- The second branch: the outcome for a parent with these children, and the 404 after it.
unfoldable pub parent_target : Bool → List ℕ → Option ℕ → Exec Session ℕ
parent_target false children asked = raise (http_exception 404)
parent_target true children (some j) =
    if member j children then pure j else raise (http_exception 403)
parent_target true [] none = raise (http_exception 404)
parent_target true (k ∷ _) none = pure k

-- The second branch where the first did not return.
unfoldable pub target_or : Option ℕ → Exec Session ℕ → Exec Session ℕ
target_or none next = next
target_or (some k) next = pure k

-- `_resolve_target_student`
unfoldable pub resolve_target_student : User → Option ℕ → Exec Session ℕ
unfolding own_target parent_target target_or role_names resolve_student_for_user
    resolve_children_ids
resolve_target_student user asked = do
  names ← query (λ db. role_names db user.id)
  own ← query (resolve_student_for_user user.id)
  children ← query (resolve_children_ids user.id)
  target_or (own_target (has_role child names) own asked)
      (parent_target (has_role parent names) children asked)

-- `my_dashboard` and `my_achievements` of api/v1/portal.py
unfoldable pub my_dashboard : Postgres → User → Option ℕ → Exec Session DashboardResponse
unfolding resolve_target_student get_dashboard
my_dashboard pg user asked = do
  target ← resolve_target_student user asked
  query (get_dashboard pg target)

unfoldable pub my_achievements : Postgres → User → Option ℕ → Exec Session AchievementsResponse
unfolding resolve_target_student get_achievements
my_achievements pg user asked = do
  target ← resolve_target_student user asked
  query (get_achievements pg target)
