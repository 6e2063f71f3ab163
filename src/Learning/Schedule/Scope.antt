-- ===== src/Learning/Schedule/Scope.antt =====
-- The order of the timetable: list_schedule.
use sirius_vkr.Prelude.{
  ℕ, ◌≡◌, Bool, true, false, ◌&&◌, ◌||◌, Option, List, [], ◌∷◌, map, arith, ◌==◌, ltb, leb,
}
use sirius_vkr.Sql.{select}
use sirius_vkr.Sql.Order.{IsOrdered, order_by-IsOrdered}
use sirius_vkr.Database.{Db}
use sirius_vkr.Schemas.Learning.{ScheduleItem}
use sirius_vkr.Learning.Schedule.{
  SlotRow, slot_rows, visible_group, slot_le, schedule_item, list_schedule,
}

slot_le-total : (a b : SlotRow) → slot_le a b ≡ false → slot_le b a ≡ true
unfolding slot_le
slot_le-total a b h = ground arith

-- An item comes no later in the week than another.
abbrev pub item_le : ScheduleItem → ScheduleItem → Bool
item_le a b = ltb a.weekday b.weekday || a.weekday == b.weekday && leb a.starts_at b.starts_at

IsOrdered-map :
    (rows : List SlotRow) → IsOrdered slot_le rows → IsOrdered item_le (map schedule_item rows)
unfolding slot_le schedule_item
IsOrdered-map [] h = tt
IsOrdered-map (r ∷ []) h = tt
IsOrdered-map (r ∷ q ∷ rows) h = (h.0, IsOrdered-map (q ∷ rows) h.1)

-- The timetable runs in order of weekday and start.
pub list_schedule-IsOrdered :
    (sids : Option (List ℕ)) (db : Db) → IsOrdered item_le (list_schedule sids db)
unfolding list_schedule
list_schedule-IsOrdered sids db = IsOrdered-map _ (
    order_by-IsOrdered slot_le slot_le-total
      (select (λ row. visible_group db sids row.1.id) (slot_rows db)))
