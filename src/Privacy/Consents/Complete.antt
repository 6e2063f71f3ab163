-- ===== src/Privacy/Consents/Complete.antt =====
-- Whom sync_consents of privacy_service.py makes consents for.
use sirius_vkr.Prelude.{
  ℕ, suc, ◌≡◌, refl, sym, ap, ◌∙◌, Bool, true, false, not, ◌&&◌, none, List, [], ◌∷◌, ◌++◌, map,
  length, All, ◌==◌,
}
use sirius_vkr.Sql.{exists}
use sirius_vkr.Sql.Found.{found_self}
use sirius_vkr.Sql.Laws.{All-append, All-map, All-weaken, select-All_with}
use sirius_vkr.Models.Vault.{SubjectType, student, guardian, Consent}
use sirius_vkr.Models.People.{Student, Guardian}
use sirius_vkr.Database.{Db}
use sirius_vkr.Exec.{ok}
use sirius_vkr.Session.{Session}
use sirius_vkr.Privacy.Consents.{
  Subject, same_subject, subjects, has_consent, lacking, new_consents, insert_consents,
  sync_consents,
}
use sirius_vkr.Privacy.Consents.Sync.{is_listed, covered, listed_self}

-- A consent of the student, and of the guardian, with an id.
abbrev pub of_student : ℕ → Consent → Bool
of_student k c = elim c.subject_type [ student ↦ c.subject_id == k | guardian ↦ false ]

abbrev pub of_guardian : ℕ → Consent → Bool
of_guardian k c = elim c.subject_type [ student ↦ false | guardian ↦ c.subject_id == k ]

-- A student or guardian of the tables who has no consent in them.
abbrev pub is_without : Db → SubjectType → ℕ → Bool
is_without db student k =
    exists (λ (t : Student). t.id == k) db.students && not (exists (of_student k) db.consents)
is_without db guardian k =
    exists (λ (t : Guardian). t.id == k) db.guardians && not (exists (of_guardian k) db.consents)

-- A row of the bootstrap: granted, and for someone who was without a consent.
abbrev pub IsBootstrap : Db → Consent → Type 0
IsBootstrap db c =
    (c.granted ≡ true) × (c.revoked_at ≡ none) × (is_without db c.subject_type c.subject_id ≡ true)

same_student :
    (type : SubjectType) (j k : ℕ)
    → same_subject (type, j) (student, k) ≡ (elim type [ student ↦ j == k | guardian ↦ false ])
same_student student j k = refl
same_student guardian j k = refl

same_guardian :
    (type : SubjectType) (j k : ℕ)
    → same_subject (type, j) (guardian, k) ≡ (elim type [ student ↦ false | guardian ↦ j == k ])
same_guardian student j k = refl
same_guardian guardian j k = refl

has_consent-student :
    (cs : List Consent) (k : ℕ) → has_consent cs (student, k) ≡ exists (of_student k) cs
unfolding has_consent
has_consent-student [] k = refl
has_consent-student (c ∷ cs) k =
    rw (same_student c.subject_type c.subject_id k, has_consent-student cs k) refl

has_consent-guardian :
    (cs : List Consent) (k : ℕ) → has_consent cs (guardian, k) ≡ exists (of_guardian k) cs
unfolding has_consent
has_consent-guardian [] k = refl
has_consent-guardian (c ∷ cs) k =
    rw (same_guardian c.subject_type c.subject_id k, has_consent-guardian cs k) refl

module _ {A : Type 0} where
  All-append_left : (P : A → Type 0) (xs ys : List A) → All P (xs ++ ys) → All P xs
  All-append_left P [] ys h = tt
  All-append_left P (x ∷ xs) ys h = (h.0, All-append_left P xs ys h.1)

  All-append_right : (P : A → Type 0) (xs ys : List A) → All P (xs ++ ys) → All P ys
  All-append_right P [] ys h = h
  All-append_right P (x ∷ xs) ys h = All-append_right P xs ys h.1

  All-unmap :
      {B : Type 0} (P : A → Type 0) (f : B → A) (xs : List B)
      → All P (map f xs)
      → All (λ b. P (f b)) xs
  All-unmap P f [] h = tt
  All-unmap P f (x ∷ xs) h = (h.0, All-unmap P f xs h.1)

-- The subjects of the tables are in them.
abbrev is_there : Db → Subject → Bool
is_there db (student, k) = exists (λ (t : Student). t.id == k) db.students
is_there db (guardian, k) = exists (λ (t : Guardian). t.id == k) db.guardians

subjects_there : (db : Db) → All (λ x. is_there db x ≡ true) (subjects db)
unfolding subjects
subjects_there db =
    All-append (λ x. is_there db x ≡ true) (map (λ (t : Student). (student, t.id)) db.students)
      (map (λ (t : Guardian). (guardian, t.id)) db.guardians)
      (All-map (λ x. is_there db x ≡ true) (λ (t : Student). (student, t.id)) db.students
        (found_self (λ (t : Student). t.id) db.students))
      (All-map (λ x. is_there db x ≡ true) (λ (t : Guardian). (guardian, t.id)) db.guardians
        (found_self (λ (t : Guardian). t.id) db.guardians))

lacking_without : (db : Db) → All (λ x. is_without db x.0 x.1 ≡ true) (lacking db)
unfolding lacking
lacking_without db =
    All-weaken (λ x. (not (has_consent db.consents x) ≡ true) × (is_there db x ≡ true)) _
      (lacking db) (by_type)
      (select-All_with (λ x. is_there db x ≡ true) (λ x. not (has_consent db.consents x))
        (subjects db) (subjects_there db))
  where
    by_type :
        (x : Subject)
        → (not (has_consent db.consents x) ≡ true) × (is_there db x ≡ true)
        → is_without db x.0 x.1 ≡ true
    by_type (student, k) (none_yet, there) =
        rw there (ap not (sym (has_consent-student db.consents k)) ∙ none_yet)
    by_type (guardian, k) (none_yet, there) =
        rw there (ap not (sym (has_consent-guardian db.consents k)) ∙ none_yet)

new_consents-IsBootstrap :
    (db : Db) (fresh : ℕ → ℕ) (drawn clock : ℕ) (todo : List Subject)
    → All (λ x. is_without db x.0 x.1 ≡ true) todo
    → All (IsBootstrap db) (new_consents fresh drawn clock todo)
unfolding new_consents
new_consents-IsBootstrap db fresh drawn clock [] h = tt
new_consents-IsBootstrap db fresh drawn clock (x ∷ xs) h =
    ((refl, refl, h.0), new_consents-IsBootstrap db fresh (suc drawn) clock xs h.1)

length-new_consents :
    (fresh : ℕ → ℕ) (drawn clock : ℕ) (todo : List Subject)
    → length todo ≡ length (new_consents fresh drawn clock todo)
unfolding new_consents
length-new_consents fresh drawn clock [] = refl
length-new_consents fresh drawn clock (x ∷ xs) =
    ap suc (length-new_consents fresh (suc drawn) clock xs)

-- Every subject of the tables has a consent in those that sync_consents commits.
sync_consents_covers :
    (s : Session)
    → All (λ x. has_consent (sync_consents s).1.committed.consents x ≡ true) (subjects s.pending)
unfolding sync_consents
sync_consents_covers s =
    All-weaken (λ x. is_listed x (subjects s.pending) ≡ true) _ (subjects s.pending) (covered s)
      (listed_self (subjects s.pending))

-- After sync_consents every student and every guardian has a consent, in the tables that it commits.
-- It adds rows behind the consents and answers with their number; each is granted, not revoked, and
-- for a student or guardian of the tables who had no consent.
pub sync_consents_complete :
    (s : Session)
    → let (r, s') = sync_consents s in
      All
        (λ (t : Student). exists (of_student t.id) s'.committed.consents ≡ true)
        s.pending.students
      × All
          (λ (t : Guardian). exists (of_guardian t.id) s'.committed.consents ≡ true)
          s.pending.guardians
      × (rows : List Consent) × (r ≡ ok (length rows))
      × (s'.committed.consents ≡ s.pending.consents ++ rows)
      × All (IsBootstrap s.pending) rows
unfolding sync_consents insert_consents subjects
sync_consents_complete s =
    let cs = (sync_consents s).1.committed.consents in
    let students = map (λ (t : Student). (student, t.id)) s.pending.students in
    let guardians = map (λ (t : Guardian). (guardian, t.id)) s.pending.guardians in
    let has = λ (x : Subject). has_consent cs x ≡ true in
    let todo = lacking s.pending in
    (
      All-weaken _ _ s.pending.students (λ t h. sym (has_consent-student cs t.id) ∙ h)
          (All-unmap has (λ (t : Student). (student, t.id)) s.pending.students
            (All-append_left has students guardians (sync_consents_covers s))),
      All-weaken _ _ s.pending.guardians (λ t h. sym (has_consent-guardian cs t.id) ∙ h)
          (All-unmap has (λ (t : Guardian). (guardian, t.id)) s.pending.guardians
            (All-append_right has students guardians (sync_consents_covers s))),
      new_consents s.fresh s.drawn s.clock todo,
      ap ok (length-new_consents s.fresh s.drawn s.clock todo),
      refl,
      new_consents-IsBootstrap s.pending s.fresh s.drawn s.clock todo (lacking_without s.pending),
    )
