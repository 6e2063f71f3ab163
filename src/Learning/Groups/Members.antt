-- ===== src/Learning/Groups/Members.antt =====
-- What update_group_members does for each listed student.
use mathlib.Core.Path.{subst}
use sirius_vkr.Prelude.{
  ℕ, suc, ◌≡◌, refl, sym, ap, ◌∙◌, Bool, true, ◌&&◌, ◌||◌, ◌⊎◌, Option, none, some, List, [], ◌∷◌,
  ◌++◌, All, arith, ◌==◌, Bool-cases, inl, inr, if_property,
}
use sirius_vkr.Sql.{exists, select}
use sirius_vkr.Sql.Laws.{exists-append}
use sirius_vkr.Models.Learning.{Enrollment}
use sirius_vkr.Database.{Db}
use sirius_vkr.Exec.{Error, Exec, Result, ok, err, ◌>>◌}
use sirius_vkr.Exec.Laws.{bind_cases}
use sirius_vkr.Session.{Session, commit, query}
use sirius_vkr.Postgres.{Postgres}
use sirius_vkr.Schemas.Learning.{GroupDetail}
use sirius_vkr.Learning.Groups.{
  existing_enrollments, by_student, enrollment_forbidden, new_enrollment, insert_enrollment,
  move_forbidden, move_enrollment, place, place_all, get_group_detail, transfer,
}
use sirius_vkr.Learning.Groups.Transfer.{moved, place_rows, place_all_rows}

-- A row pairs the student with the group.
abbrev pub in_group : ℕ → ℕ → List Enrollment → Bool
in_group gid sid = exists (λ e. e.student_id == sid && e.group_id == gid)

-- A row of the id is the student's.
abbrev pub is_owned : ℕ → ℕ → List Enrollment → Bool
is_owned eid sid = exists (λ e. e.id == eid && e.student_id == sid)

in_group-moved :
    (eid gid sid : ℕ) (es : List Enrollment)
    → in_group gid sid es ≡ true
    → in_group gid sid (moved eid gid es) ≡ true
in_group-moved eid gid sid [] h = h
in_group-moved eid gid sid (e ∷ es) h = ground (arith, in_group-moved eid gid sid es)

is_owned-moved :
    (eid gid k sid : ℕ) (es : List Enrollment)
    → is_owned k sid es ≡ true
    → is_owned k sid (moved eid gid es) ≡ true
is_owned-moved eid gid k sid [] h = h
is_owned-moved eid gid k sid (e ∷ es) h = ground (arith, is_owned-moved eid gid k sid es)

-- The move puts the owner of the row into the group.
moved-in_group :
    (eid gid sid : ℕ) (es : List Enrollment)
    → is_owned eid sid es ≡ true
    → in_group gid sid (moved eid gid es) ≡ true
moved-in_group eid gid sid [] h = h
moved-in_group eid gid sid (e ∷ es) h = ground (arith, moved-in_group eid gid sid es)

-- What the snapshot says of a student still holds of the rows.
abbrev pub Holds : ℕ → ℕ → Option (ℕ × ℕ) → List Enrollment → Type 0
Holds gid sid none es = Unit
Holds gid sid (some (eid, current)) es =
    (is_owned eid sid es ≡ true) × ((current == gid) ≡ true → in_group gid sid es ≡ true)

exists-append_left :
    (p : Enrollment → Bool) (es fs : List Enrollment)
    → exists p es ≡ true
    → exists p (es ++ fs) ≡ true
exists-append_left p es fs h = exists-append p es fs ∙ ap (λ b. b || exists p fs) h

Holds-added :
    (gid sid : ℕ) (current : Option (ℕ × ℕ)) (es : List Enrollment) (e : Enrollment)
    → Holds gid sid current es
    → Holds gid sid current (es ++ e ∷ [])
Holds-added gid sid none es e h = tt
Holds-added gid sid (some (eid, current)) es e h =
    (exists-append_left _ es (e ∷ []) h.0, λ same. exists-append_left _ es (e ∷ []) (h.1 same))

Holds-moved :
    (gid sid : ℕ) (current : Option (ℕ × ℕ)) (eid : ℕ) (es : List Enrollment)
    → Holds gid sid current es
    → Holds gid sid current (moved eid gid es)
Holds-moved gid sid none eid es h = tt
Holds-moved gid sid (some (k, current)) eid es h =
    (is_owned-moved eid gid k sid es h.0, λ same. in_group-moved eid gid sid es (h.1 same))

pub in_group-added :
    (k gid sid at : ℕ) (es : List Enrollment)
    → in_group gid sid (es ++ new_enrollment k sid gid at ∷ []) ≡ true
unfolding new_enrollment
in_group-added k gid sid at [] = ground arith
in_group-added k gid sid at (e ∷ es) = ground (arith, in_group-added k gid sid at es)

-- The session's rows pair the student with the group once the action has returned.
abbrev pub Enrolls : ℕ → ℕ → Session → Exec Session (Unit {0}) → Type 0
Enrolls gid sid s m = (m s).0 ≡ ok tt → in_group gid sid (m s).1.pending.enrollments ≡ true

insert_enrollment-Enrolls :
    (k gid sid : ℕ) (s : Session) → Enrolls gid sid s (insert_enrollment k sid gid)
unfolding insert_enrollment
insert_enrollment-Enrolls k gid sid s = elim (Bool-cases (enrollment_forbidden sid gid s.pending)) [
  | inl bad ↦ rw bad (λ h. absurd (cc))
  | inr good ↦ rw good (λ h. in_group-added k gid sid s.clock s.pending.enrollments)
]

move_enrollment-Enrolls :
    (eid gid sid : ℕ) (s : Session)
    → is_owned eid sid s.pending.enrollments ≡ true
    → Enrolls gid sid s (move_enrollment eid gid)
unfolding move_enrollment
move_enrollment-Enrolls eid gid sid s owned = elim (Bool-cases (move_forbidden eid gid s.pending)) [
  | inl bad ↦ rw bad (λ h. absurd (cc))
  | inr good ↦ rw good (λ h. moved-in_group eid gid sid s.pending.enrollments owned)
]

-- A round that returns leaves its student in the group.
place-Enrolls :
    (gid sid : ℕ) (current : Option (ℕ × ℕ)) (s : Session)
    → Holds gid sid current s.pending.enrollments
    → Enrolls gid sid s (place gid sid current)
unfolding place
place-Enrolls gid sid none s h =
    insert_enrollment-Enrolls (s.fresh s.drawn) gid sid (record s { drawn = suc s.drawn })
place-Enrolls gid sid (some (eid, current)) s h =
    if_property (Enrolls gid sid s) (current == gid) _ _ (λ same _. h.1 same)
      (λ _. move_enrollment-Enrolls eid gid sid s h.0)

-- The loop, where it returns, leaves every student of the list in the group.
pub place_all_enrolls :
    (gid : ℕ) (existing : List Enrollment) (sids : List ℕ) (s : Session)
    → ((sid : ℕ) → Holds gid sid (by_student existing sid) s.pending.enrollments)
    → (place_all gid existing sids s).0 ≡ ok tt
    → All
        (λ sid. in_group gid sid (place_all gid existing sids s).1.pending.enrollments ≡ true)
        sids
unfolding place_all
place_all_enrolls gid existing [] s h e = tt
place_all_enrolls gid existing (sid ∷ sids) s h e =
    let first_round = place gid sid (by_student existing sid) in
    elim (bind_cases first_round (λ _. place_all gid existing sids) s) [
      | inl (x, raised, whole) ↦ absurd (cc)
      | inr (_, returned, whole) ↦
          let s' = (first_round s).1 in
          let here : in_group gid sid s'.pending.enrollments ≡ true =
            place-Enrolls gid sid (by_student existing sid) s (h sid) returned in
          let keep : (j : ℕ) → Holds gid j (by_student existing j) s'.pending.enrollments = λ j.
            place_rows (Holds gid j (by_student existing j)) gid
              (λ k i at es.
                Holds-added gid j (by_student existing j) es (new_enrollment k i gid at))
              (λ eid es. Holds-moved gid j (by_student existing j) eid es) sid
              (by_student existing sid) s (h j) in
          subst
            (λ (t : Result (Unit {0}) × Session).
              All (λ j. in_group gid j t.1.pending.enrollments ≡ true) (sid ∷ sids))
            (sym whole)
            (
              place_all_rows (λ es. in_group gid sid es ≡ true) gid
                  (λ k i at es. exists-append_left _ es (new_enrollment k i gid at ∷ []))
                  (λ eid es. in_group-moved eid gid sid es) existing sids s' here,
              place_all_enrolls gid existing sids s' keep (sym (ap (λ r. r.0) whole) ∙ e),
            )
    ]

-- The snapshot's entry of a student is one of the rows.
by_student_row :
    (p : Enrollment → Bool) (es : List Enrollment) (sid eid gid : ℕ)
    → by_student (select p es) sid ≡ some (eid, gid)
    → exists (λ e. e.id == eid && (e.student_id == sid && e.group_id == gid)) es ≡ true
unfolding by_student
by_student_row p [] sid eid gid h = cc
by_student_row p (e ∷ es) sid eid gid h = ground (arith, by_student_row p es sid eid gid)

abbrev pub is_row : ℕ → ℕ → ℕ → List Enrollment → Bool
is_row eid sid gid = exists (λ e. e.id == eid && (e.student_id == sid && e.group_id == gid))

is_row-is_owned :
    (eid sid gid : ℕ) (es : List Enrollment)
    → is_row eid sid gid es ≡ true
    → is_owned eid sid es ≡ true
is_row-is_owned eid sid gid [] h = h
is_row-is_owned eid sid gid (e ∷ es) h = ground (arith, is_row-is_owned eid sid gid es)

is_row-in_group :
    (eid sid current gid : ℕ) (es : List Enrollment)
    → is_row eid sid current es ≡ true
    → (current == gid) ≡ true
    → in_group gid sid es ≡ true
is_row-in_group eid sid current gid [] h same = h
is_row-in_group eid sid current gid (e ∷ es) h same =
    ground (arith, is_row-in_group eid sid current gid es)

Holds-is_row :
    (gid sid : ℕ) (found : Option (ℕ × ℕ)) (es : List Enrollment)
    → ((eid current : ℕ) → found ≡ some (eid, current) → is_row eid sid current es ≡ true)
    → Holds gid sid found es
Holds-is_row gid sid none es h = tt
Holds-is_row gid sid (some (eid, current)) es h =
    let row : is_row eid sid current es ≡ true = h eid current refl in
    (is_row-is_owned eid sid current es row, is_row-in_group eid sid current gid es row)

-- So the snapshot holds of the rows that it was taken from.
pub Holds-snapshot :
    (db : Db) (course gid : ℕ) (sids : List ℕ) (sid : ℕ)
    → Holds gid sid (by_student (existing_enrollments db course sids) sid) db.enrollments
unfolding existing_enrollments
Holds-snapshot db course gid sids sid =
    Holds-is_row gid sid (by_student (existing_enrollments db course sids) sid) db.enrollments
      (λ eid current. by_student_row _ db.enrollments sid eid current)

-- How update_group_members ends on a group whose course is known.
pub transfer_cases :
    (pg : Postgres) (gid course : ℕ) (sids : List ℕ) (s : Session)
    → let existing = existing_enrollments s.pending course sids in
      let loop = place_all gid existing sids s in
      ((e : Error) × ((transfer pg gid sids (some course) s).0 ≡ err e)
        × ((transfer pg gid sids (some course) s).1 ≡ loop.1))
      ⊎ ((answer : Option GroupDetail) × ((transfer pg gid sids (some course) s).0 ≡ ok answer)
          × (loop.0 ≡ ok tt)
          × ((transfer pg gid sids (some course) s).1.committed ≡ loop.1.pending))
unfolding transfer
transfer_cases pg gid course sids s =
    let existing = existing_enrollments s.pending course sids in
    elim (bind_cases (place_all gid existing sids) (λ _. commit >> query (get_group_detail pg gid))
      s) [
        | inl (e, raised, whole) ↦ inl (e, ap (λ t. t.0) whole, ap (λ t. t.1) whole)
        | inr (_, returned, whole) ↦
            inr (_, ap (λ t. t.0) whole, returned, ap (λ t. t.1.committed) whole)
      ]
