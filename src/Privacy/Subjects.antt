-- ===== src/Privacy/Subjects.antt =====
-- The directory and the card of a data subject, of services/privacy_service.py.
use sirius_vkr.Prelude.{ℕ, List, ◌++◌, map, ◌==◌}
use sirius_vkr.Sql.{select, order_by}
use sirius_vkr.Models.Vault.{SubjectType, student, guardian}
use sirius_vkr.Database.{Db}
use sirius_vkr.Postgres.{Postgres, student_name, guardian_name}
use sirius_vkr.Schemas.Privacy.{SubjectSummary, SubjectCard}
use sirius_vkr.Privacy.Consents.{list_consents}
use sirius_vkr.Privacy.Requests.{subject_name, list_requests}

-- UNION ALL of both tables, ORDER BY subject_name
unfoldable pub list_subjects : Postgres → Db → List SubjectSummary
list_subjects pg db =
    order_by (λ a b. pg.text_le a.subject_name b.subject_name)
      (map
          (λ t. record {
            subject_type = student;
            subject_id = t.id;
            subject_name = student_name pg t;
          })
          db.students
        ++ map
            (λ t. record {
              subject_type = guardian;
              subject_id = t.id;
              subject_name = guardian_name pg t;
            })
            db.guardians)

-- The lists are filtered by the id alone.
unfoldable pub get_subject_card : Postgres → ℕ → SubjectType → ℕ → Db → SubjectCard
unfolding subject_name list_consents list_requests
get_subject_card pg at type k db = record {
  subject = record {
    subject_type = type;
    subject_id = k;
    subject_name = subject_name pg type k db;
  };
  consents = select (λ c. c.subject_id == k) (list_consents pg db);
  requests = select (λ r. r.subject_id == k) (list_requests pg at db);
}
