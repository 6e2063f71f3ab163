-- ===== src/Learning/Schedule.antt =====
-- The weekly timetable: list_schedule of services/learning_service.py and api/v1/schedule.py.
pub mod Scope
pub mod Sight
pub mod Shown
use sirius_vkr.Prelude.{
  ℕ, Bool, true, ◌&&◌, ◌||◌, Option, none, some, List, [], ◌∷◌, ◌++◌, map, ◌==◌, ltb, leb,
  if◌then◌else◌,
}
use sirius_vkr.Sql.{select, exists, order_by, member, inner_join}
use sirius_vkr.Models.Access.{RoleName, child, parent, teacher, admin, User}
use sirius_vkr.Models.Learning.{Course, Group, ScheduleSlot}
use sirius_vkr.Database.{Db}
use sirius_vkr.Schemas.Learning.{ScheduleItem}
use sirius_vkr.Auth.Roles.{has_role, role_names}
use sirius_vkr.Learning.Subjects.{resolve_student_for_user, resolve_children_ids}

-- A row of the join of slots, groups and courses.
abbrev pub SlotRow : Type 0
SlotRow = ScheduleSlot × Group × Course

-- The join of core.schedule_slots, core.groups and core.courses.
unfoldable pub slot_rows : Db → List SlotRow
slot_rows db =
    map (λ row. (row.0.0, row.0.1, row.1))
      (inner_join (λ (pair : ScheduleSlot × Group) (c : Course). c.id == pair.1.course_id)
        (inner_join (λ (sl : ScheduleSlot) (g : Group). g.id == sl.group_id) db.schedule_slots
          db.groups)
        db.courses)

-- g.id IN (SELECT e.group_id ... WHERE e.student_id = ANY(:sids)); None leaves the clause out.
unfoldable pub visible_group : Db → Option (List ℕ) → ℕ → Bool
visible_group db none gid = true
visible_group db (some sids) gid =
    exists (λ e. member e.student_id sids && e.group_id == gid) db.enrollments

-- ORDER BY sl.weekday, sl.starts_at
unfoldable pub slot_le : SlotRow → SlotRow → Bool
slot_le a b =
    ltb a.0.weekday b.0.weekday || a.0.weekday == b.0.weekday && leb a.0.starts_at b.0.starts_at

unfoldable pub schedule_item : SlotRow → ScheduleItem
schedule_item (sl, g, c) = record {
  id = sl.id;
  group_id = sl.group_id;
  group_name = g.name;
  course_title = c.title;
  direction = c.direction;
  weekday = sl.weekday;
  starts_at = sl.starts_at;
  ends_at = sl.ends_at;
  room = sl.room;
  teacher_id = g.teacher_id;
}

unfoldable pub list_schedule : Option (List ℕ) → Db → List ScheduleItem
unfolding slot_rows visible_group slot_le schedule_item
list_schedule sids db =
    map schedule_item
      (order_by slot_le (select (λ row. visible_group db sids row.1.id) (slot_rows db)))

-- `[own]` where the account has a student profile.
unfoldable pub own_ids : Option ℕ → List ℕ
own_ids none = []
own_ids (some k) = k ∷ []

-- The students whose groups an account may see; `none` is the whole timetable of the staff.
unfoldable pub schedule_scope : Db → ℕ → List RoleName → Option (List ℕ)
unfolding own_ids resolve_student_for_user resolve_children_ids
schedule_scope db uid names =
    if has_role teacher names || has_role admin names
    then none
    else some (
        (if has_role child names then own_ids (resolve_student_for_user uid db) else [])
        ++ (if has_role parent names then resolve_children_ids uid db else []))

-- `get_schedule` of api/v1/schedule.py
unfoldable pub get_schedule : User → Db → List ScheduleItem
unfolding schedule_scope list_schedule role_names
get_schedule user db = list_schedule (schedule_scope db user.id (role_names db user.id)) db
