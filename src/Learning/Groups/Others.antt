-- ===== src/Learning/Groups/Others.antt =====
-- What update_group_members leaves alone: the enrollments of the students who are not listed.
use mathlib.Core.Path.{subst}
use sirius_vkr.Prelude.{
  ℕ, ◌≡◌, refl, sym, ◌∙◌, true, false, Option, none, some, List, [], ◌∷◌, ◌++◌, arith, ◌==◌,
  Bool-cases, inl, inr, if_property, ==_iff,
}
use sirius_vkr.Sql.{exists, select, member}
use sirius_vkr.Models.Learning.{Enrollment}
use sirius_vkr.Database.{Db}
use sirius_vkr.Exec.{Exec, ◌>>◌}
use sirius_vkr.Exec.Laws.{bind_keeps}
use sirius_vkr.Session.{Session, commit, query}
use sirius_vkr.Postgres.{Postgres}
use sirius_vkr.Learning.Groups.{
  existing_enrollments, by_student, new_enrollment, enrollment_forbidden, move_forbidden,
  insert_enrollment, move_enrollment, place, place_all, transfer, course_of_group,
  update_group_members, get_group_detail,
}
use sirius_vkr.Learning.Groups.Transfer.{moved}
use sirius_vkr.Learning.Groups.Members.{is_owned, Holds, Holds-snapshot}

-- The primary key of core.enrollments.
abbrev pub HaveUniqueIds : List Enrollment → Type 0
HaveUniqueIds [] = Unit
HaveUniqueIds (e ∷ es) = (exists (λ f. f.id == e.id) es ≡ false) × HaveUniqueIds es

-- The rows of a student.
abbrev pub rows_of : ℕ → List Enrollment → List Enrollment
rows_of j = select (λ e. e.student_id == j)

has_id-rows_of :
    (k j : ℕ) (es : List Enrollment)
    → exists (λ e. e.id == k) es ≡ false
    → exists (λ e. e.id == k) (rows_of j es) ≡ false
has_id-rows_of k j [] h = refl
has_id-rows_of k j (e ∷ es) h = ground (arith, has_id-rows_of k j es, h)

is_owned_none :
    (k sid : ℕ) (es : List Enrollment)
    → exists (λ e. e.id == k) es ≡ false
    → is_owned k sid es ≡ false
is_owned_none k sid [] h = refl
is_owned_none k sid (e ∷ es) h = ground (arith, is_owned_none k sid es, h)

-- A row of one student has an id that no row of another has.
owned_apart :
    (k sid j : ℕ) (es : List Enrollment)
    → HaveUniqueIds es
    → is_owned k sid es ≡ true
    → (sid == j) ≡ false
    → exists (λ e. e.id == k) (rows_of j es) ≡ false
owned_apart k sid j [] u o apart = refl
owned_apart k sid j (e ∷ es) u o apart = elim (Bool-cases (e.id == k)) [
  | inl same ↦
      let rest : exists (λ f. f.id == k) es ≡ false =
        subst (λ n. exists (λ (f : Enrollment). f.id == n) es ≡ false) ((==_iff e.id k).0 same)
          u.0 in
      ground (arith, o, apart, same, is_owned_none k sid es rest, has_id-rows_of k j es rest)
  | inr other ↦ ground (arith, o, apart, other, owned_apart k sid j es u.1)
]

rows_of-moved :
    (eid gid j : ℕ) (es : List Enrollment)
    → exists (λ e. e.id == eid) (rows_of j es) ≡ false
    → rows_of j (moved eid gid es) ≡ rows_of j es
rows_of-moved eid gid j [] h = refl
rows_of-moved eid gid j (e ∷ es) h = ground (arith, rows_of-moved eid gid j es, h)

rows_of-added :
    (k sid gid at j : ℕ) (es : List Enrollment)
    → (sid == j) ≡ false
    → rows_of j (es ++ new_enrollment k sid gid at ∷ []) ≡ rows_of j es
unfolding new_enrollment
rows_of-added k sid gid at j [] apart = rw apart refl
rows_of-added k sid gid at j (e ∷ es) apart = ground (arith, rows_of-added k sid gid at j es apart)

-- The entry of a student in the snapshot names no row of student j.
abbrev Avoids : ℕ → Option (ℕ × ℕ) → List Enrollment → Type 0
Avoids j none rows = Unit
Avoids j (some (eid, _)) rows = exists (λ e. e.id == eid) rows ≡ false

Holds-Avoids :
    (gid sid j : ℕ) (current : Option (ℕ × ℕ)) (es : List Enrollment)
    → HaveUniqueIds es
    → Holds gid sid current es
    → (sid == j) ≡ false
    → Avoids j current (rows_of j es)
Holds-Avoids gid sid j none es u h apart = tt
Holds-Avoids gid sid j (some (eid, _)) es u h apart = owned_apart eid sid j es u h.0 apart

-- One round for another student keeps the rows of student j.
place-rows_of :
    (gid sid j : ℕ) (current : Option (ℕ × ℕ)) (s : Session)
    → (sid == j) ≡ false
    → Avoids j current (rows_of j s.pending.enrollments)
    → rows_of j (place gid sid current s).1.pending.enrollments ≡ rows_of j s.pending.enrollments
unfolding place insert_enrollment move_enrollment
place-rows_of gid sid j none s apart h =
    if_property (λ (db : Db). rows_of j db.enrollments ≡ rows_of j s.pending.enrollments)
      (enrollment_forbidden sid gid s.pending) s.pending _ (λ _. refl)
      (λ _. rows_of-added (s.fresh s.drawn) sid gid s.clock j s.pending.enrollments apart)
place-rows_of gid sid j (some (eid, current)) s apart h =
    if_property
      (λ (m : Exec Session (Unit {0})).
        rows_of j (m s).1.pending.enrollments ≡ rows_of j s.pending.enrollments)
      (current == gid) _ _ (λ _. refl)
      (λ _.
        if_property (λ (db : Db). rows_of j db.enrollments ≡ rows_of j s.pending.enrollments)
          (move_forbidden eid gid s.pending) s.pending _ (λ _. refl)
          (λ _. rows_of-moved eid gid j s.pending.enrollments h))

-- So does the loop, whether it returns or raises.
place_all-rows_of :
    (gid j : ℕ) (existing rows : List Enrollment) (sids : List ℕ) (s : Session)
    → ((sid : ℕ) → (sid == j) ≡ false → Avoids j (by_student existing sid) rows)
    → member j sids ≡ false
    → rows_of j s.pending.enrollments ≡ rows
    → rows_of j (place_all gid existing sids s).1.pending.enrollments ≡ rows
unfolding place_all
place_all-rows_of gid j existing rows [] s avoid unlisted same = same
place_all-rows_of gid j existing rows (sid ∷ sids) s avoid unlisted same =
    let apart : (sid == j) ≡ false = ground (arith, unlisted) in
    bind_keeps (λ (t : Session). rows_of j t.pending.enrollments ≡ rows)
      (place gid sid (by_student existing sid)) (λ _. place_all gid existing sids) s
      (place-rows_of gid sid j (by_student existing sid) s apart
          (subst (Avoids j (by_student existing sid)) (sym same) (avoid sid apart))
        ∙ same)
      (λ _. place_all-rows_of gid j existing rows sids _ avoid (ground (arith, unlisted)))

transfer-rows_of :
    (pg : Postgres) (gid j : ℕ) (sids : List ℕ) (course : Option ℕ) (s : Session)
    → HaveUniqueIds s.pending.enrollments
    → member j sids ≡ false
    → rows_of j (transfer pg gid sids course s).1.pending.enrollments
      ≡ rows_of j s.pending.enrollments
unfolding transfer
transfer-rows_of pg gid j sids none s unique unlisted = refl
transfer-rows_of pg gid j sids (some course) s unique unlisted =
    let existing = existing_enrollments s.pending course sids in
    let rows = rows_of j s.pending.enrollments in
    bind_keeps (λ (t : Session). rows_of j t.pending.enrollments ≡ rows)
      (place_all gid existing sids) (λ _. commit >> query (get_group_detail pg gid)) s
      (place_all-rows_of gid j existing rows sids s
        (λ sid.
          Holds-Avoids gid sid j (by_student existing sid) s.pending.enrollments unique
            (Holds-snapshot s.pending course gid sids sid))
        unlisted refl)
      (λ _ kept. kept)

-- Where the ids of the enrollments are unique, a call of update_group_members, whether it answers
-- or raises, leaves the enrollments of a student who is not listed as they were, in the tables of
-- its transaction.
pub update_group_members_unlisted :
    (pg : Postgres) (gid j : ℕ) (sids : List ℕ) (s : Session)
    → HaveUniqueIds s.pending.enrollments
    → member j sids ≡ false
    → rows_of j (update_group_members pg gid sids s).1.pending.enrollments
      ≡ rows_of j s.pending.enrollments
unfolding update_group_members
update_group_members_unlisted pg gid j sids s unique unlisted =
    transfer-rows_of pg gid j sids (course_of_group gid s.pending) s unique unlisted
