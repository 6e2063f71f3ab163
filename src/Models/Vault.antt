-- ===== src/Models/Vault.antt =====
-- models/consent.py, models/subject_request.py and models/pseudonym.py: the vault schema. The
-- enumerations are those of schemas/privacy.py, to which CHECK constraints hold the columns.
use sirius_vkr.Prelude.{ℕ, Bool, true, false, String, Option}

-- `SubjectType` of schemas/privacy.py
pub data SubjectType : Type 0 where
  student guardian : SubjectType

abbrev pub same_type : SubjectType → SubjectType → Bool
same_type student student = true
same_type guardian guardian = true
same_type _ _ = false

-- `RequestType` of schemas/privacy.py
pub data RequestType : Type 0 where
  export delete : RequestType

-- `RequestStatus` of schemas/privacy.py
pub data RequestStatus : Type 0 where
  new in_progress done rejected : RequestStatus

-- vault.consent
pub record Consent : Type 0 where
  pub id : ℕ
  pub subject_type : SubjectType
  pub subject_id : ℕ
  pub purpose : String
  pub granted : Bool
  pub granted_at : Option ℕ
  pub revoked_at : Option ℕ
  pub created_at : ℕ

-- vault.subject_request
pub record SubjectRequest : Type 0 where
  pub id : ℕ
  pub subject_type : SubjectType
  pub subject_id : ℕ
  pub request_type : RequestType
  pub status : RequestStatus
  pub note : Option String
  pub created_at : ℕ
  pub due_at : ℕ
  pub resolved_at : Option ℕ

-- vault.pseudonym_map
pub record PseudonymMap : Type 0 where
  pub id : ℕ
  pub entity_type : String
  pub entity_id : ℕ
  pub field_name : String
  pub original_hash : String
  pub pseudonym : String
  pub created_at : ℕ
