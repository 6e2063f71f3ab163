-- ===== src/Learning/Schedule/Shown.antt =====
-- Whose slots the timetable shows: get_schedule.
use sirius_vkr.Prelude.{
  ℕ, ◌≡◌, refl, sym, ap, ◌∙◌, Bool, true, false, ◌&&◌, Option, List, [], ◌∷◌, All, arith, ◌==◌,
  ==_iff, ==_refl, inl, inr, Bool-cases,
}
use sirius_vkr.Sql.{select, exists, order_by, inner_join}
use sirius_vkr.Sql.Laws.{
  All-map, All-weaken, select-All_with, inner_join-All, inner_join-All_left, exists-map,
}
use sirius_vkr.Sql.Order.{All-order_by, exists-order_by}
use sirius_vkr.Sql.Found.{exists_self, exists_mono, exists-select, exists-inner_join}
use sirius_vkr.Models.Access.{User}
use sirius_vkr.Models.Learning.{Course, Group, ScheduleSlot}
use sirius_vkr.Database.{Db}
use sirius_vkr.Schemas.Learning.{ScheduleItem}
use sirius_vkr.Auth.Roles.{role_names}
use sirius_vkr.Learning.Schedule.{
  SlotRow, slot_rows, visible_group, slot_le, schedule_item, list_schedule, schedule_scope,
  get_schedule,
}
use sirius_vkr.Learning.Schedule.Sight.{sees, scope_sees}

-- The joined rows pair a slot with its own group.
abbrev JoinedGroup : SlotRow → Type 0
JoinedGroup row = row.1.id ≡ row.0.group_id

slot_rows-Joined : (db : Db) → All JoinedGroup (slot_rows db)
unfolding slot_rows
slot_rows-Joined db =
    All-map JoinedGroup (λ (row : (ScheduleSlot × Group) × Course). (row.0.0, row.0.1, row.1)) _
      (inner_join-All_left (λ (pair : ScheduleSlot × Group) (c : Course). c.id == pair.1.course_id)
        (λ (pair : ScheduleSlot × Group). pair.1.id ≡ pair.0.group_id)
        (inner_join (λ (sl : ScheduleSlot) (g : Group). g.id == sl.group_id) db.schedule_slots
          db.groups)
        db.courses
        (All-weaken _ _ _ (λ pair e. (==_iff pair.1.id pair.0.group_id).0 e)
          (inner_join-All (λ (sl : ScheduleSlot) (g : Group). g.id == sl.group_id) db.schedule_slots
            db.groups)))

-- What the timetable shows is of groups in the scope.
shown_visible :
    (scope : Option (List ℕ)) (db : Db)
    → All
        (λ (item : ScheduleItem). visible_group db scope item.group_id ≡ true)
        (list_schedule scope db)
unfolding list_schedule schedule_item
shown_visible scope db =
    let seen = λ (row : SlotRow). visible_group db scope row.1.id in
    let good = λ (item : ScheduleItem). visible_group db scope item.group_id ≡ true in
    All-map good schedule_item (order_by slot_le (select seen (slot_rows db))) (
      All-order_by slot_le (λ row. good (schedule_item row)) (select seen (slot_rows db))
        (All-weaken (λ row. (seen row ≡ true) × JoinedGroup row) (λ row. good (schedule_item row))
          (select seen (slot_rows db)) (λ row h. sym (ap (visible_group db scope) h.1) ∙ h.0)
          (select-All_with JoinedGroup seen (slot_rows db) (slot_rows-Joined db))))

none_of_group :
    (visible : ℕ → Bool) (gid : ℕ) (p : ScheduleItem → Bool) (items : List ScheduleItem)
    → All (λ (item : ScheduleItem). visible item.group_id ≡ true) items
    → visible gid ≡ false
    → exists (λ (item : ScheduleItem). p item && item.group_id == gid) items ≡ false
none_of_group visible gid p [] h hidden = refl
none_of_group visible gid p (i ∷ items) h hidden = elim (Bool-cases (i.group_id == gid)) [
  | inl same ↦
      let clash = sym (ap visible ((==_iff i.group_id gid).0 same)) ∙ h.0 in
      absurd (cc (clash, hidden))
  | inr other ↦
      let rest = none_of_group visible gid p items h.1 hidden in ground (arith, other, rest)
]

-- Each slot is of a group, and each such group of a course.
abbrev pub HaveGroups : Db → Type 0
HaveGroups db =
    All
      (λ (sl : ScheduleSlot).
        exists
          (λ (g : Group).
            g.id == sl.group_id && exists (λ (c : Course). c.id == g.course_id) db.courses)
          db.groups
        ≡ true)
      db.schedule_slots

-- An item of the slot.
abbrev pub is_item : ScheduleSlot → ScheduleItem → Bool
is_item sl item = item.id == sl.id && item.group_id == sl.group_id

module _ (db : Db) (visible : ℕ → Bool) where
  -- A slot with its group and course, in the scope, that gives an item of another slot.
  abbrev pairs : ScheduleSlot → ScheduleSlot → Bool
  pairs sl other =
      exists
        (λ (g : Group).
          g.id == other.group_id
          && exists
              (λ (c : Course).
                c.id == g.course_id
                && (visible g.id && (other.id == sl.id && other.group_id == sl.group_id)))
              db.courses)
        db.groups

  pairs_self :
      (sl : ScheduleSlot)
      → exists
          (λ (g : Group).
            g.id == sl.group_id && exists (λ (c : Course). c.id == g.course_id) db.courses)
          db.groups
        ≡ true
      → visible sl.group_id ≡ true
      → pairs sl sl ≡ true
  pairs_self sl there seen =
      exists_mono _ _ db.groups
        (λ g h.
          let own : (g.id == sl.group_id) ≡ true = ground (arith, h) in
          let named : visible g.id ≡ true = ap visible ((==_iff g.id sl.group_id).0 own) ∙ seen in
          let course =
            exists_mono (λ (c : Course). c.id == g.course_id)
              (λ (c : Course).
                c.id == g.course_id
                && (visible g.id && (sl.id == sl.id && sl.group_id == sl.group_id)))
              db.courses (λ c e. rw (e, named, ==_refl sl.id, ==_refl sl.group_id) refl)
              (ground (arith, h, own)) in
          rw (own, course) refl)
        there

shown_rows :
    (scope : Option (List ℕ)) (db : Db) (sl : ScheduleSlot)
    → exists (is_item sl) (list_schedule scope db)
      ≡ exists (pairs db (visible_group db scope) sl) db.schedule_slots
unfolding list_schedule slot_rows schedule_item
shown_rows scope db sl =
    let seen = λ (row : SlotRow). visible_group db scope row.1.id in
    let as_row : (ScheduleSlot × Group) × Course → SlotRow = λ row. (row.0.0, row.0.1, row.1) in
    let on_group = λ (s : ScheduleSlot) (g : Group). g.id == s.group_id in
    let on_course = λ (pair : ScheduleSlot × Group) (c : Course). c.id == pair.1.course_id in
    let good = λ (row : SlotRow). seen row && is_item sl (schedule_item row) in
    exists-map (is_item sl) schedule_item (order_by slot_le (select seen (slot_rows db)))
    ∙ exists-order_by slot_le (λ row. is_item sl (schedule_item row)) (select seen (slot_rows db))
    ∙ exists-select (λ row. is_item sl (schedule_item row)) seen (slot_rows db)
    ∙ exists-map good as_row
        (inner_join on_course (inner_join on_group db.schedule_slots db.groups) db.courses)
    ∙ exists-inner_join (λ row. good (as_row row)) on_course
        (inner_join on_group db.schedule_slots db.groups) db.courses
    ∙ exists-inner_join
        (λ pair. exists (λ c. on_course pair c && good (as_row (pair, c))) db.courses) on_group
        db.schedule_slots db.groups

shown_in_scope :
    (scope : Option (List ℕ)) (db : Db)
    → HaveGroups db
    → All
        (λ (sl : ScheduleSlot).
          exists (is_item sl) (list_schedule scope db) ≡ visible_group db scope sl.group_id)
        db.schedule_slots
shown_in_scope scope db groups =
    let visible = visible_group db scope in
    All-weaken
      (λ (sl : ScheduleSlot).
        visible sl.group_id ≡ true → exists (pairs db visible sl) db.schedule_slots ≡ true)
      _ db.schedule_slots
      (λ sl found. elim (Bool-cases (visible sl.group_id)) [
        | inl seen ↦ shown_rows scope db sl ∙ found seen ∙ sym seen
        | inr hidden ↦
            none_of_group visible sl.group_id (λ item. item.id == sl.id) (list_schedule scope db)
              (shown_visible scope db) hidden
            ∙ sym hidden
      ])
      (exists_self (λ (sl : ScheduleSlot). visible sl.group_id ≡ true) (pairs db visible)
        db.schedule_slots (All-weaken _ _ db.schedule_slots (pairs_self db visible) groups))

-- The timetable of an account shows slots of groups that it sees only: any for the staff, else those
-- with a student whom it may view in the portal. Where each slot has its group and course, the
-- timetable shows a slot exactly when the account sees its group.
pub get_schedule_shown :
    (user : User) (db : Db)
    → HaveGroups db
    → All (λ (item : ScheduleItem). sees db user.id item.group_id ≡ true) (get_schedule user db)
      × All
          (λ (sl : ScheduleSlot).
            exists (is_item sl) (get_schedule user db) ≡ sees db user.id sl.group_id)
          db.schedule_slots
unfolding get_schedule
get_schedule_shown user db groups =
    let scope = schedule_scope db user.id (role_names db user.id) in
    (
      All-weaken _ _ (list_schedule scope db)
          (λ item h. sym (scope_sees db user.id item.group_id) ∙ h) (shown_visible scope db),
      All-weaken _ _ db.schedule_slots (λ sl h. h ∙ scope_sees db user.id sl.group_id)
          (shown_in_scope scope db groups),
    )
