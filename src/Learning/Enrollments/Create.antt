-- ===== src/Learning/Enrollments/Create.antt =====
-- Every outcome of create_enrollment, and the database that it commits.
use mathlib.Core.Path.{subst}
use sirius_vkr.Prelude.{
  ℕ, ◌≡◌, refl, sym, ap, ◌∙◌, Bool, true, false, ◌&&◌, List, [], ◌∷◌, ◌++◌, arith, ◌==◌, ==_refl,
  Bool-cases, inl, inr,
}
use sirius_vkr.Sql.{exists}
use sirius_vkr.Sql.Laws.{first-append_none, exists-append}
use sirius_vkr.Models.Learning.{Enrollment, Group, active}
use sirius_vkr.Database.{Db}
use sirius_vkr.Exec.{Result, ok, err, learning_error}
use sirius_vkr.Session.{Session}
use sirius_vkr.Schemas.Learning.{EnrollmentItem}
use sirius_vkr.Learning.Groups.{enrollment_forbidden, new_enrollment, insert_enrollment}
use sirius_vkr.Learning.Enrollments.{enrollment_item, create_enrollment}

abbrev pub has_group : ℕ → Db → Bool
has_group gid db = exists (λ g. g.id == gid) db.groups

-- The row that the next call inserts.
abbrev next_enrollment : ℕ → ℕ → Session → Enrollment
next_enrollment sid gid s = new_enrollment (s.fresh s.drawn) sid gid s.clock

-- Without the group: the error, and the session as it was.
create_enrollment_no_group :
    (sid gid : ℕ) (s : Session)
    → has_group gid s.pending ≡ false
    → create_enrollment sid gid s ≡ (err (learning_error "Group not found"), s)
unfolding create_enrollment
create_enrollment_no_group sid gid s h = rw h refl

-- With a row that a constraint forbids: the error, and the tables as last committed.
create_enrollment_forbidden :
    (sid gid : ℕ) (s : Session)
    → has_group gid s.pending ≡ true
    → enrollment_forbidden sid gid s.pending ≡ true
    → let (r, s') = create_enrollment sid gid s in
      (r ≡ err (learning_error "Already enrolled in this group")) × (s'.committed ≡ s.committed)
unfolding create_enrollment insert_enrollment
create_enrollment_forbidden sid gid s found bad = ground arith

-- With one that none forbids, it is committed behind the others.
create_enrollment_commits :
    (sid gid : ℕ) (s : Session)
    → has_group gid s.pending ≡ true
    → enrollment_forbidden sid gid s.pending ≡ false
    → let s' = (create_enrollment sid gid s).1 in
      (s'.committed.enrollments ≡ s.pending.enrollments ++ next_enrollment sid gid s ∷ [])
      × (s'.pending ≡ s'.committed)
      × (s'.committed.groups ≡ s.pending.groups)
unfolding create_enrollment insert_enrollment
create_enrollment_commits sid gid s found good = ground arith

create_enrollment_returns :
    (sid gid : ℕ) (s : Session)
    → exists (λ e. e.id == s.fresh s.drawn) s.pending.enrollments ≡ false
    → has_group gid s.pending ≡ true
    → enrollment_forbidden sid gid s.pending ≡ false
    → (create_enrollment sid gid s).0 ≡ ok (enrollment_item (next_enrollment sid gid s))
unfolding create_enrollment insert_enrollment new_enrollment
create_enrollment_returns sid gid s unused found good = ground (
  arith,
  first-append_none (λ e. e.id == s.fresh s.drawn) s.pending.enrollments
      (next_enrollment sid gid s ∷ []),
  ==_refl (s.fresh s.drawn),
)

-- A row of the student in the group forbids another.
paired_forbidden :
    (sid gid : ℕ) (db : Db) (rows : List Enrollment) (k at : ℕ)
    → db.enrollments ≡ rows ++ new_enrollment k sid gid at ∷ []
    → enrollment_forbidden sid gid db ≡ true
unfolding enrollment_forbidden new_enrollment
paired_forbidden sid gid db rows k at h = rw h (
    ground (
      arith,
      exists-append (λ e. e.student_id == sid && e.group_id == gid) rows
          (new_enrollment k sid gid at ∷ []),
      ==_refl sid,
      ==_refl gid,
    ))

-- An enrollment that has just been made: of the student, in the group, active and at the beginning.
abbrev pub Enrolls : ℕ → ℕ → EnrollmentItem → Type 0
Enrolls sid gid item =
    (item.student_id ≡ sid) × (item.group_id ≡ gid) × (item.status ≡ active) × (item.progress ≡ 0)

-- Where the id drawn is unused, the group exists and no constraint forbids the row,
-- create_enrollment answers with an enrollment of the student in the group, active and without
-- progress, whose row is committed under its id; asked again it raises "Already enrolled in this
-- group" and commits nothing.
pub create_enrollment_again :
    (sid gid : ℕ) (s : Session)
    → exists (λ e. e.id == s.fresh s.drawn) s.pending.enrollments ≡ false
    → has_group gid s.pending ≡ true
    → enrollment_forbidden sid gid s.pending ≡ false
    → let (r, s') = create_enrollment sid gid s in
      let (r', s'') = create_enrollment sid gid s' in
      (item : EnrollmentItem) × (r ≡ ok item)
      × Enrolls sid gid item
      × (exists
            (λ e. e.id == item.id && (e.student_id == sid && e.group_id == gid))
            s'.committed.enrollments
          ≡ true)
      × (r' ≡ err (learning_error "Already enrolled in this group"))
      × (s''.committed ≡ s'.committed)
unfolding new_enrollment enrollment_item
create_enrollment_again sid gid s unused found good =
    let s' = (create_enrollment sid gid s).1 in
    let row = next_enrollment sid gid s in
    let (rows, same, groups) = create_enrollment_commits sid gid s found good in
    let still : has_group gid s'.pending ≡ true =
      ap (λ (db : Db). has_group gid db) same
      ∙ ap (λ gs. exists (λ (g : Group). g.id == gid) gs) groups
      ∙ found in
    let bad : enrollment_forbidden sid gid s'.pending ≡ true =
      ap (enrollment_forbidden sid gid) same
      ∙ paired_forbidden sid gid s'.committed s.pending.enrollments (s.fresh s.drawn) s.clock
          rows in
    let is_row = λ (e : Enrollment). e.id == row.id && (e.student_id == sid && e.group_id == gid) in
    let (refused, kept) = create_enrollment_forbidden sid gid s' still bad in
    (
      enrollment_item row,
      create_enrollment_returns sid gid s unused found good,
      (refl, refl, refl, refl),
      ap (exists is_row) rows
          ∙ ground (
            arith,
            exists-append is_row s.pending.enrollments (row ∷ []),
            ==_refl row.id,
            ==_refl sid,
            ==_refl gid,
          ),
      refused,
      kept,
    )

-- A student is in a group by one row.
abbrev pub HaveUniquePairs : List Enrollment → Type 0
HaveUniquePairs [] = Unit
HaveUniquePairs (e ∷ es) =
    (exists (λ o. o.student_id == e.student_id && o.group_id == e.group_id) es ≡ false)
    × HaveUniquePairs es

HaveUniquePairs-append :
    (es : List Enrollment) (new : Enrollment)
    → HaveUniquePairs es
    → exists (λ o. o.student_id == new.student_id && o.group_id == new.group_id) es ≡ false
    → HaveUniquePairs (es ++ new ∷ [])
HaveUniquePairs-append [] new h n = (refl, tt)
HaveUniquePairs-append (e ∷ es) new h n = (
  ground (
    arith,
    exists-append (λ o. o.student_id == e.student_id && o.group_id == e.group_id) es (new ∷ []),
  ),
  HaveUniquePairs-append es new h.1 (ground arith),
)

no_pair :
    (sid gid : ℕ) (s : Session)
    → enrollment_forbidden sid gid s.pending ≡ false
    → let row = next_enrollment sid gid s in
      exists
        (λ o. o.student_id == row.student_id && o.group_id == row.group_id)
        s.pending.enrollments
      ≡ false
unfolding enrollment_forbidden new_enrollment
no_pair sid gid s good = ground (arith, good)

-- Where a student is in a group by one row at most in the pending and in the committed tables, it is
-- so in the committed ones after create_enrollment, whatever its outcome.
pub create_enrollment-HaveUniquePairs :
    (sid gid : ℕ) (s : Session)
    → HaveUniquePairs s.pending.enrollments
    → HaveUniquePairs s.committed.enrollments
    → HaveUniquePairs (create_enrollment sid gid s).1.committed.enrollments
create_enrollment-HaveUniquePairs sid gid s p c = elim (Bool-cases (has_group gid s.pending)) [
  | inl found ↦ elim (Bool-cases (enrollment_forbidden sid gid s.pending)) [
    | inl bad ↦
        subst (λ (db : Db). HaveUniquePairs db.enrollments)
          (sym (create_enrollment_forbidden sid gid s found bad).1) c
    | inr good ↦ subst HaveUniquePairs (sym (create_enrollment_commits sid gid s found good).0) (
        HaveUniquePairs-append s.pending.enrollments (next_enrollment sid gid s) p
          (no_pair sid gid s good))
  ]
  | inr missing ↦
      subst (λ (t : Result EnrollmentItem × Session). HaveUniquePairs t.1.committed.enrollments)
        (sym (create_enrollment_no_group sid gid s missing)) c
]
