-- ===== src/Privacy/Consents/Sync.antt =====
-- The bootstrap of the consent register: sync_consents of privacy_service.py.
use mathlib.Core.Path.{ap₂}
use sirius_vkr.Prelude.{
  ℕ, suc, ◌≡◌, refl, sym, ap, ◌∙◌, ==_iff, ==_refl, if_property, Bool, true, false, not, ◌||◌, List,
  [], ◌∷◌, ◌++◌, length, All, append-nil, arith, Bool-cases, inl, inr,
}
use sirius_vkr.Sql.{select}
use sirius_vkr.Sql.Laws.{exists-append, select_none, All-weaken}
use sirius_vkr.Models.Vault.{student, guardian}
use sirius_vkr.Exec.{Result, ok}
use sirius_vkr.Session.{Session}
use sirius_vkr.Privacy.Consents.{
  Subject, same_subject, subject_of, subjects, has_consent, lacking, new_consents, insert_consents,
  sync_consents,
}

-- `subject in xs`
abbrev pub is_listed : Subject → List Subject → Bool
is_listed s [] = false
is_listed s (t ∷ ts) = same_subject s t || is_listed s ts

||-true : (b : Bool) → (b || true) ≡ true
||-true true = refl
||-true false = refl

same_subject_refl : (s : Subject) → same_subject s s ≡ true
same_subject_refl (student, k) = ==_refl k
same_subject_refl (guardian, k) = ==_refl k

same_subject_symm : (s t : Subject) → same_subject s t ≡ same_subject t s
same_subject_symm (student, j) (student, k) = ground arith
same_subject_symm (student, j) (guardian, k) = refl
same_subject_symm (guardian, j) (student, k) = refl
same_subject_symm (guardian, j) (guardian, k) = ground arith

same_subject_eq : (s t : Subject) → same_subject s t ≡ true → s ≡ t
same_subject_eq (student, j) (student, k) h = ap (λ n. (student, n)) ((==_iff j k).0 h)
same_subject_eq (student, j) (guardian, k) h = cc
same_subject_eq (guardian, j) (student, k) h = cc
same_subject_eq (guardian, j) (guardian, k) h = ap (λ n. (guardian, n)) ((==_iff j k).0 h)

-- The new rows hold a consent of each subject that they are made for.
has_consent-new_consents :
    (fresh : ℕ → ℕ) (drawn clock : ℕ) (todo : List Subject) (s : Subject)
    → has_consent (new_consents fresh drawn clock todo) s ≡ is_listed s todo
unfolding has_consent new_consents
has_consent-new_consents fresh drawn clock [] s = refl
has_consent-new_consents fresh drawn clock (t ∷ ts) s =
    ap₂ ◌||◌ (same_subject_symm t s) (has_consent-new_consents fresh (suc drawn) clock ts s)

-- A subject that is listed and passes the test is listed among the selected ones.
is_listed-select :
    (q : Subject → Bool) (s : Subject) (ts : List Subject)
    → is_listed s ts ≡ true
    → q s ≡ true
    → is_listed s (select q ts) ≡ true
is_listed-select q s [] h e = h
is_listed-select q s (t ∷ ts) h e = elim (Bool-cases (same_subject s t)) [
  | inl here ↦
      let kept : q t ≡ true = ap q (sym (same_subject_eq s t here)) ∙ e in rw (kept, here) refl
  | inr there ↦
      let rest : is_listed s (select q ts) ≡ true =
        is_listed-select q s ts (ap (λ b. b || is_listed s ts) (sym there) ∙ h) e in
      if_property (λ l. is_listed s l ≡ true) (q t) (t ∷ select q ts) (select q ts)
        (λ _. rw (there, rest) refl) (λ _. rest)
]

-- Every subject of the database has a consent once the rows for the lacking ones are in.
pub covered :
    (s : Session) (x : Subject)
    → is_listed x (subjects s.pending) ≡ true
    → has_consent (insert_consents s).1.pending.consents x ≡ true
unfolding insert_consents lacking has_consent
covered s x h =
    let cs = s.pending.consents in
    let rows = new_consents s.fresh s.drawn s.clock (lacking s.pending) in
    exists-append (λ c. same_subject (subject_of c) x) cs rows
    ∙ (elim (Bool-cases (has_consent cs x)) [
      | inl old ↦ rw old refl
      | inr new ↦ ap₂ ◌||◌ new (
          has_consent-new_consents s.fresh s.drawn s.clock (lacking s.pending) x
          ∙ is_listed-select (λ t. not (has_consent cs t)) x (subjects s.pending) h (ap not new))
    ])

-- A list is listed in itself.
All-is_listed :
    (xs ys : List Subject)
    → All (λ x. is_listed x ys ≡ true) xs
    → (y : Subject) → All (λ x. is_listed x (y ∷ ys) ≡ true) xs
All-is_listed [] ys h y = tt
All-is_listed (x ∷ xs) ys h y = (rw h.0 (||-true (same_subject x y)), All-is_listed xs ys h.1 y)

pub listed_self : (xs : List Subject) → All (λ x. is_listed x xs ≡ true) xs
listed_self [] = tt
listed_self (x ∷ xs) = (rw (same_subject_refl x) refl, All-is_listed xs xs (listed_self xs) x)

-- Where no subject lacks a consent, sync_consents adds no row.
sync_consents_nothing :
    (s : Session)
    → lacking s.pending ≡ []
    → ((sync_consents s).0 ≡ ok 0) × ((sync_consents s).1.committed.consents ≡ s.pending.consents)
unfolding sync_consents new_consents
sync_consents_nothing s h = (
  ap (λ (l : List Subject). Result.ok (length l)) h,
  ap (λ (l : List Subject). s.pending.consents ++ new_consents s.fresh s.drawn s.clock l) h
      ∙ append-nil s.pending.consents,
)

-- After sync_consents the INSERT would select no subject.
sync_consents_settles : (s : Session) → lacking (sync_consents s).1.committed ≡ []
unfolding sync_consents lacking subjects
sync_consents_settles s = select_none _ (subjects s.pending) (
    All-weaken (λ x. is_listed x (subjects s.pending) ≡ true) _ (subjects s.pending)
      (λ x h. ap not (covered s x h)) (listed_self (subjects s.pending)))

-- A second sync_consents creates no consent and leaves the register as the first committed it.
pub sync_consents_idem :
    (s : Session)
    → let s' = (sync_consents s).1 in
      ((sync_consents s').0 ≡ ok 0)
      × ((sync_consents s').1.committed.consents ≡ s'.committed.consents)
unfolding sync_consents
sync_consents_idem s = sync_consents_nothing (sync_consents s).1 (sync_consents_settles s)
