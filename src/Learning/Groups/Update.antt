-- ===== src/Learning/Groups/Update.antt =====
-- update_group_members as a whole: the listed students end in the group, nothing else of an
-- enrollment changes, and a call that raises changes nothing.
use mathlib.Core.Path.{subst}
use sirius_vkr.Prelude.{
  ℕ, ◌≡◌, refl, sym, ap, ◌∙◌, true, false, Option, none, some, List, [], ◌∷◌, All, arith, ◌==◌, inl,
  inr, ==_refl, if_property,
}
use sirius_vkr.Models.Learning.{Enrollment}
use sirius_vkr.Database.{Db}
use sirius_vkr.Exec.{Error, Exec, ok, err, integrity_error}
use sirius_vkr.Exec.Laws.{bind_ok}
use sirius_vkr.Session.{Session, get_db}
use sirius_vkr.Session.Laws.{get_db_err}
use sirius_vkr.Postgres.{Postgres}
use sirius_vkr.Schemas.Learning.{GroupDetail}
use sirius_vkr.Learning.Groups.{
  existing_enrollments, by_student, enrollment_forbidden, insert_enrollment, move_enrollment, place,
  place_all, course_of_group, transfer, update_group_members,
}
use sirius_vkr.Learning.Groups.Transfer.{Extends, place_all_keeps, place_all-Extends}
use sirius_vkr.Learning.Groups.Members.{
  in_group, in_group-added, Holds-snapshot, place_all_enrolls, transfer_cases,
}

-- What a call with an answer has done to the rows before it.
abbrev pub Transfers : ℕ → List ℕ → Db → Db → Type 0
Transfers gid sids before after =
    All (λ sid. in_group gid sid after.enrollments ≡ true) sids
    × Extends before.enrollments after.enrollments

transfer-Transfers :
    (pg : Postgres) (gid course : ℕ) (sids : List ℕ) (s : Session) (answer : Option GroupDetail)
    → (transfer pg gid sids (some course) s).0 ≡ ok answer
    → Transfers gid sids s.pending (transfer pg gid sids (some course) s).1.committed
transfer-Transfers pg gid course sids s answer h =
    let existing = existing_enrollments s.pending course sids in
    elim (transfer_cases pg gid course sids s) [
      | inl (e, raised, _) ↦ absurd (cc)
      | inr (_, _, returned, same) ↦ subst (Transfers gid sids s.pending) (sym same) (
        place_all_enrolls gid existing sids s (Holds-snapshot s.pending course gid sids) returned,
        place_all-Extends gid existing sids s,
      )
    ]

transfer-none :
    (pg : Postgres) (gid : ℕ) (sids : List ℕ) (s : Session) (answer : GroupDetail)
    → ¬ ((transfer pg gid sids none s).0 ≡ ok (some answer))
unfolding transfer
transfer-none pg gid sids s answer h = cc

-- A call of update_group_members that answers with the group leaves every listed student enrolled
-- in it, in the database that it commits; the earlier enrollments keep their order, id, student,
-- status, progress and date, and the rows behind them are new, active and at progress 0.
pub update_group_members-Transfers :
    (pg : Postgres) (gid : ℕ) (sids : List ℕ) (s : Session) (answer : GroupDetail)
    → (update_group_members pg gid sids s).0 ≡ ok (some answer)
    → Transfers gid sids s.pending (update_group_members pg gid sids s).1.committed
unfolding update_group_members
update_group_members-Transfers pg gid sids s answer = by_course (course_of_group gid s.pending)
  where
    by_course :
        (course : Option ℕ)
        → (transfer pg gid sids course s).0 ≡ ok (some answer)
        → Transfers gid sids s.pending (transfer pg gid sids course s).1.committed
    by_course none h = absurd (transfer-none pg gid sids s answer h)
    by_course (some course) h = transfer-Transfers pg gid course sids s (some answer) h

place-committed :
    (gid sid : ℕ) (current : Option (ℕ × ℕ)) (s : Session)
    → (place gid sid current s).1.committed ≡ s.committed
unfolding place insert_enrollment move_enrollment
place-committed gid sid none s = refl
place-committed gid sid (some (eid, current)) s =
    if_property (λ (m : Exec Session (Unit {0})). (m s).1.committed ≡ s.committed) (current == gid)
      _ _ (λ _. refl) (λ _. refl)

place_all-committed :
    (gid : ℕ) (existing : List Enrollment) (sids : List ℕ) (s : Session)
    → (place_all gid existing sids s).1.committed ≡ s.committed
place_all-committed gid existing sids s =
    place_all_keeps (λ t. t.committed ≡ s.committed) gid existing
      (λ sid t h. place-committed gid sid (by_student existing sid) t ∙ h) sids s refl

ok-ne-err : {A : Type 0} (a : A) (e : Error) → ¬ (ok a ≡ err e)
ok-ne-err a e h = cc

transfer_err :
    (pg : Postgres) (gid : ℕ) (sids : List ℕ) (course : Option ℕ) (s : Session) (e : Error)
    → (transfer pg gid sids course s).0 ≡ err e
    → (transfer pg gid sids course s).1.committed ≡ s.committed
transfer_err pg gid sids none s e h = unfold transfer in refl
transfer_err pg gid sids (some course) s e h = elim (transfer_cases pg gid course sids s) [
  | inl (x, raised, same) ↦
      ap (λ t. t.committed) same
      ∙ place_all-committed gid (existing_enrollments s.pending course sids) sids s
  | inr (answer, answered, _, _) ↦ absurd (ok-ne-err answer e (sym answered ∙ h))
]

-- A call of update_group_members that raises leaves the committed tables as they were.
pub update_group_members_atomic :
    (pg : Postgres) (gid : ℕ) (sids : List ℕ) (s : Session) (e : Error)
    → (get_db (update_group_members pg gid sids) s).0 ≡ err e
    → (get_db (update_group_members pg gid sids) s).1.committed ≡ s.committed
unfolding update_group_members
update_group_members_atomic pg gid sids s e h =
    let (raised, same) = get_db_err (update_group_members pg gid sids) s e h in
    same ∙ transfer_err pg gid sids (course_of_group gid s.pending) s e raised

-- Where each listed student is in the group by the snapshot, the loop of update_group_members
-- returns and changes nothing.
place_all_idle :
    (gid : ℕ) (existing : List Enrollment) (sids : List ℕ) (s : Session)
    → All (λ sid. (eid : ℕ) × (by_student existing sid ≡ some (eid, gid))) sids
    → place_all gid existing sids s ≡ (ok tt, s)
unfolding place_all place
place_all_idle gid existing [] s h = refl
place_all_idle gid existing (sid ∷ sids) s ((eid, here), rest) =
    bind_ok (place gid sid (by_student existing sid)) (λ _. place_all gid existing sids) s s tt
      (rw (here, ==_refl gid) refl)
    ∙ place_all_idle gid existing sids s rest

-- Where a student has no enrollment in the course and no constraint forbids one, the loop of
-- update_group_members over a list that begins with the student twice raises IntegrityError.
pub place_all_duplicate :
    (gid sid : ℕ) (existing : List Enrollment) (sids : List ℕ) (s : Session)
    → by_student existing sid ≡ none
    → enrollment_forbidden sid gid s.pending ≡ false
    → (place_all gid existing (sid ∷ sid ∷ sids) s).0 ≡ err integrity_error
unfolding place_all place insert_enrollment enrollment_forbidden
place_all_duplicate gid sid existing sids s absent good =
    rw absent
      (ground (arith, in_group-added (s.fresh s.drawn) gid sid s.clock s.pending.enrollments))
