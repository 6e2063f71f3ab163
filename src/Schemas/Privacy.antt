-- ===== src/Schemas/Privacy.antt =====
-- schemas/privacy.py; its enumerations stand in Models/Vault.antt.
use sirius_vkr.Prelude.{ℕ, Bool, String, Option, List}
use sirius_vkr.Models.Vault.{SubjectType, RequestType, RequestStatus}

pub record ConsentItem : Type 0 where
  pub id : ℕ
  pub subject_type : SubjectType
  pub subject_id : ℕ
  pub subject_name : String
  pub purpose : String
  pub granted : Bool
  pub granted_at : Option ℕ
  pub revoked_at : Option ℕ

pub record ConsentKpi : Type 0 where
  pub subjects_total : ℕ
  pub consents_total : ℕ
  pub granted : ℕ
  pub revoked : ℕ
  pub subjects_without_consent : ℕ

pub record SyncResult : Type 0 where
  pub created : ℕ

pub record SubjectRequestCreate : Type 0 where
  pub subject_type : SubjectType
  pub subject_id : ℕ
  pub request_type : RequestType
  pub note : Option String

pub record SubjectRequestUpdate : Type 0 where
  pub status : RequestStatus

pub record SubjectRequestItem : Type 0 where
  pub id : ℕ
  pub subject_type : SubjectType
  pub subject_id : ℕ
  pub subject_name : String
  pub request_type : RequestType
  pub status : RequestStatus
  pub note : Option String
  pub created_at : ℕ
  pub due_at : ℕ
  pub resolved_at : Option ℕ
  pub overdue : Bool

pub record SubjectSummary : Type 0 where
  pub subject_type : SubjectType
  pub subject_id : ℕ
  pub subject_name : String

pub record SubjectCard : Type 0 where
  pub subject : SubjectSummary
  pub consents : List ConsentItem
  pub requests : List SubjectRequestItem
