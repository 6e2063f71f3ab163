-- ===== src/Privacy/Consents.antt =====
-- The consent register of services/privacy_service.py.
pub mod Sync
pub mod Complete
use sirius_vkr.Prelude.{
  ℕ, zero, suc, ◌+◌, ◌-◌, Bool, true, false, not, ◌&&◌, String, Option, none, some, List, [], ◌∷◌,
  ◌++◌, map, length, ◌==◌, leb, is_some, if◌then◌else◌,
}
use sirius_vkr.Sql.{select, exists, count_where, first, order_by}
use sirius_vkr.Models.Vault.{SubjectType, student, guardian, same_type, Consent}
use sirius_vkr.Database.{Db}
use sirius_vkr.Exec.{Result, Exec, pure, ◌>>=◌, ◌>>◌}
use sirius_vkr.Session.{Session, commit, query}
use sirius_vkr.Postgres.{Postgres, student_name, guardian_name}
use sirius_vkr.Schemas.Privacy.{ConsentItem, ConsentKpi}

-- `_DEFAULT_PURPOSE`
abbrev pub default_purpose : String
default_purpose = "Оказание образовательных услуг"

-- A data subject: the pair (subject_type, subject_id).
abbrev pub Subject : Type 0
Subject = SubjectType × ℕ

abbrev pub same_subject : Subject → Subject → Bool
same_subject s t = same_type s.0 t.0 && s.1 == t.1

abbrev pub subject_of : Consent → Subject
subject_of c = (c.subject_type, c.subject_id)

-- The lateral joins on core.students and core.guardians with the COALESCE over them, for the
-- subject of one row.
unfoldable pub joined_name : Postgres → Db → SubjectType → ℕ → String
joined_name pg db student k = elim (first (λ t. t.id == k) db.students) [
  | none ↦ "—"
  | some t ↦ student_name pg t
]
joined_name pg db guardian k = elim (first (λ t. t.id == k) db.guardians) [
  | none ↦ "—"
  | some t ↦ guardian_name pg t
]

unfoldable pub consent_item : Postgres → Db → Consent → ConsentItem
consent_item pg db c = record {
  id = c.id;
  subject_type = c.subject_type;
  subject_id = c.subject_id;
  subject_name = joined_name pg db c.subject_type c.subject_id;
  purpose = c.purpose;
  granted = c.granted;
  granted_at = c.granted_at;
  revoked_at = c.revoked_at;
}

-- ORDER BY c.created_at DESC
unfoldable pub list_consents : Postgres → Db → List ConsentItem
unfolding consent_item
list_consents pg db =
    map (consent_item pg db) (order_by (λ a b. leb b.created_at a.created_at) db.consents)

-- The subquery `src` of sync_consents: every student, then every guardian.
unfoldable pub subjects : Db → List Subject
subjects db = map (λ t. (student, t.id)) db.students ++ map (λ t. (guardian, t.id)) db.guardians

unfoldable pub has_consent : List Consent → Subject → Bool
has_consent cs s = exists (λ c. same_subject (subject_of c) s) cs

-- WHERE NOT EXISTS (...)
unfoldable pub lacking : Db → List Subject
unfolding subjects has_consent
lacking db = select (λ s. not (has_consent db.consents s)) (subjects db)

-- The rows that the INSERT of sync_consents adds, their ids drawn one after another.
unfoldable pub new_consents : (ℕ → ℕ) → ℕ → ℕ → List Subject → List Consent
new_consents fresh drawn clock [] = []
new_consents fresh drawn clock (s ∷ rest) =
    record {
      id = fresh drawn;
      subject_type = s.0;
      subject_id = s.1;
      purpose = default_purpose;
      granted = true;
      granted_at = some clock;
      revoked_at = none;
      created_at = clock;
    }
    ∷ new_consents fresh (suc drawn) clock rest

-- INSERT INTO vault.consent ... SELECT ...; the result is its row count.
unfoldable pub insert_consents : Exec Session ℕ
unfolding lacking new_consents
insert_consents s =
    let todo = lacking s.pending in
    let rows = new_consents s.fresh s.drawn s.clock todo in
    (
      Result.ok (length todo),
      record s {
        pending = record s.pending { consents = s.pending.consents ++ rows };
        drawn = s.drawn + length todo;
      },
    )

unfoldable pub sync_consents : Exec Session ℕ
unfolding insert_consents
sync_consents = do created ← insert_consents; commit; pure created

-- count(DISTINCT (subject_type, subject_id))
unfoldable pub count_subjects : List Consent → ℕ
unfolding has_consent
count_subjects [] = 0
count_subjects (c ∷ cs) =
    let rest = count_subjects cs in if has_consent cs (subject_of c) then rest else suc rest

-- `max(a - b, 0)` is the truncated subtraction.
unfoldable pub consent_kpi : Db → ConsentKpi
unfolding count_subjects
consent_kpi db =
    let subjects_total = length db.students + length db.guardians in
    record {
      subjects_total = subjects_total;
      consents_total = length db.consents;
      granted = count_where (λ c. c.granted) db.consents;
      revoked = count_where (λ c. is_some c.revoked_at) db.consents;
      subjects_without_consent = subjects_total - count_subjects db.consents;
    }
