-- ===== src/Models/People.antt =====
-- models/student.py: students, guardians and the link between them. The PII columns hold bytes.
use sirius_vkr.Prelude.{ℕ, String, Option, List}

-- The type bytea.
abbrev pub Bytes : Type 0
Bytes = List ℕ

-- core.students
pub record Student : Type 0 where
  pub id : ℕ
  pub last_name : Bytes
  pub first_name : Bytes
  pub middle_name : Option Bytes
  pub email : Option Bytes
  pub phone : Option Bytes
  pub birth_date : Option ℕ
  pub user_id : Option ℕ
  pub created_at : ℕ
  pub updated_at : ℕ

-- core.guardians
pub record Guardian : Type 0 where
  pub id : ℕ
  pub last_name : Bytes
  pub first_name : Bytes
  pub middle_name : Option Bytes
  pub email : Option Bytes
  pub phone : Option Bytes
  pub relation_type : Option String
  pub user_id : Option ℕ
  pub created_at : ℕ
  pub updated_at : ℕ

-- core.student_guardian
pub record StudentGuardian : Type 0 where
  pub student_id : ℕ
  pub guardian_id : ℕ
