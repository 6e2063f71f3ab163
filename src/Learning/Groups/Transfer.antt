-- ===== src/Learning/Groups/Transfer.antt =====
-- The loop of update_group_members: what it does to the rows of core.enrollments.
mod Rows
pub use Rows.*
use sirius_vkr.Prelude.{
  ℕ, suc, ◌≡◌, refl, sym, ap, ◌∙◌, Bool, true, false, not, ◌&&◌, ◌||◌, Option, none, some, List, [],
  ◌∷◌, ◌++◌, All, arith, ◌==◌, Bool-cases, Option-cases, inl, inr, ==_iff, ==_refl, if_property,
  if◌then◌else◌,
}
use sirius_vkr.Sql.{exists, update_where}
use sirius_vkr.Models.Learning.{Enrollment}
use sirius_vkr.Database.{Db}
use sirius_vkr.Exec.{Exec, ok, ◌>>=◌}
use sirius_vkr.Exec.Laws.{bind_cases, bind_keeps}
use sirius_vkr.Session.{Session}
use sirius_vkr.Learning.Groups.{
  by_student, new_enrollment, enrollment_forbidden, move_forbidden, insert_enrollment,
  move_enrollment, place, place_all,
}

-- What each round keeps, the loop keeps, whether it returns or raises.
pub place_all_keeps :
    (P : Session → Type 0) (gid : ℕ) (existing : List Enrollment)
    → ((sid : ℕ) (s : Session) → P s → P (place gid sid (by_student existing sid) s).1)
    → (sids : List ℕ) (s : Session) → P s
    → P (place_all gid existing sids s).1
unfolding place_all
place_all_keeps P gid existing step [] s h = h
place_all_keeps P gid existing step (sid ∷ sids) s h =
    bind_keeps P (place gid sid (by_student existing sid)) (λ _. place_all gid existing sids) s
      (step sid s h) (λ _ p. place_all_keeps P gid existing step sids _ p)

-- The rows after UPDATE core.enrollments SET group_id = :gid WHERE id = :eid.
abbrev pub moved : ℕ → ℕ → List Enrollment → List Enrollment
moved eid gid = update_where (λ e. e.id == eid) (λ e. record e { group_id = gid })

-- What holds of the rows, under an INSERT of a new row and under a move to the group, every round
-- and so the loop keeps.
module _ (Q : List Enrollment → Type 0) (gid : ℕ)
    (added : (k sid at : ℕ) (es : List Enrollment)
      → Q es
      → Q (es ++ new_enrollment k sid gid at ∷ []))
    (shifted : (eid : ℕ) (es : List Enrollment) → Q es → Q (moved eid gid es)) where
  pub place_rows :
      (sid : ℕ) (current : Option (ℕ × ℕ)) (s : Session)
      → Q s.pending.enrollments
      → Q (place gid sid current s).1.pending.enrollments
  unfolding place insert_enrollment move_enrollment
  place_rows sid none s h =
      if_property (λ (db : Db). Q db.enrollments) (enrollment_forbidden sid gid s.pending) s.pending
        _ (λ _. h) (λ _. added (s.fresh s.drawn) sid s.clock s.pending.enrollments h)
  place_rows sid (some (eid, current)) s h =
      if_property (λ (m : Exec Session (Unit {0})). Q (m s).1.pending.enrollments) (current == gid)
        _ _ (λ _. h)
        (λ _.
          if_property (λ (db : Db). Q db.enrollments) (move_forbidden eid gid s.pending) s.pending _
            (λ _. h) (λ _. shifted eid s.pending.enrollments h))

  pub place_all_rows :
      (existing : List Enrollment) (sids : List ℕ) (s : Session)
      → Q s.pending.enrollments
      → Q (place_all gid existing sids s).1.pending.enrollments
  place_all_rows existing sids s h =
      place_all_keeps (λ t. Q t.pending.enrollments) gid existing
        (λ sid t q. place_rows sid (by_student existing sid) t q) sids s h

-- The loop touches no enrollment but in its group, and the rows that it adds are new.
pub place_all-Extends :
    (gid : ℕ) (existing : List Enrollment) (sids : List ℕ) (s : Session)
    → Extends s.pending.enrollments (place_all gid existing sids s).1.pending.enrollments
place_all-Extends gid existing sids s =
    place_all_rows (Extends s.pending.enrollments) gid
      (λ k sid at es h.
        Extends-append s.pending.enrollments es _ h (unfold new_enrollment in (refl, refl)))
      (λ eid es h. Extends-move s.pending.enrollments es eid gid h) existing sids s
      (Extends-refl s.pending.enrollments)
