-- ===== src/Migrations/SubjectRequest.antt =====
-- 20260615_c3d4e5f6a7b8_subject_request.py
use sirius_vkr.Prelude.{true, false, none, some, List, [], ◌∷◌}
use sirius_vkr.Migrations.{
  uuid, text, timestamptz, Column, column, Constraint, check, primary_key, Operation, create_table,
  drop_table, create_index, drop_index, grant, revoke_all,
}

abbrev subject_request_columns : List Column
subject_request_columns =
    column "id" uuid (some "gen_random_uuid()") false
    ∷ column "subject_type" text none false
    ∷ column "subject_id" uuid none false
    ∷ column "request_type" text none false
    ∷ column "status" text (some "'new'") false
    ∷ column "note" text none true
    ∷ column "created_at" timestamptz (some "now()") false
    ∷ column "due_at" timestamptz none false
    ∷ column "resolved_at" timestamptz none true
    ∷ []

abbrev subject_request_constraints : List Constraint
subject_request_constraints =
    check "ck_subject_request_subject_type" "subject_type IN ('student', 'guardian')"
    ∷ check "ck_subject_request_type" "request_type IN ('export', 'delete')"
    ∷ check "ck_subject_request_status" "status IN ('new', 'in_progress', 'done', 'rejected')"
    ∷ primary_key ("id" ∷ [])
    ∷ []

unfoldable pub upgrade : List Operation
upgrade =
    create_table "vault.subject_request" subject_request_columns subject_request_constraints
    ∷ create_index "idx_subject_request_status" "vault.subject_request" ("status" ∷ [])
    ∷ grant "vault.subject_request" "vault_role" ("SELECT" ∷ "INSERT" ∷ "UPDATE" ∷ "DELETE" ∷ [])
    ∷ []

unfoldable pub downgrade : List Operation
downgrade =
    revoke_all "vault.subject_request" "vault_role"
    ∷ drop_index "idx_subject_request_status" "vault.subject_request"
    ∷ drop_table "vault.subject_request"
    ∷ []
