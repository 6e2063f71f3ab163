-- ===== src/Migrations/Initial.antt =====
-- 20250605_c1a2b3d4e5f6_initial_tables.py
use sirius_vkr.Prelude.{true, false, none, some, List, [], ◌∷◌}
use sirius_vkr.Migrations.{
  uuid, text, integer, date, timestamptz, jsonb, Column, column, cascade, Constraint, check,
  primary_key, unique, foreign_key, Operation, create_table, drop_table, create_index, drop_index,
  grant, revoke_all,
}

abbrev jobs_columns : List Column
jobs_columns =
    column "id" uuid (some "gen_random_uuid()") false
    ∷ column "type" text none false
    ∷ column "status" text (some "'pending'") false
    ∷ column "progress" integer (some "'0'") false
    ∷ column "error" text none true
    ∷ column "result" jsonb none true
    ∷ column "created_at" timestamptz (some "now()") false
    ∷ column "updated_at" timestamptz (some "now()") false
    ∷ []

abbrev jobs_constraints : List Constraint
jobs_constraints =
    check "ck_jobs_type" "type IN ('import', 'anonymize')"
    ∷ check "ck_jobs_status" "status IN ('pending', 'processing', 'done', 'failed')"
    ∷ check "ck_jobs_progress" "progress BETWEEN 0 AND 100"
    ∷ primary_key ("id" ∷ [])
    ∷ []

abbrev students_columns : List Column
students_columns =
    column "id" uuid (some "gen_random_uuid()") false
    ∷ column "last_name" text none false
    ∷ column "first_name" text none false
    ∷ column "middle_name" text none true
    ∷ column "email" text none true
    ∷ column "phone" text none true
    ∷ column "birth_date" date none true
    ∷ column "created_at" timestamptz (some "now()") false
    ∷ column "updated_at" timestamptz (some "now()") false
    ∷ []

abbrev students_constraints : List Constraint
students_constraints = primary_key ("id" ∷ []) ∷ []

abbrev guardians_columns : List Column
guardians_columns =
    column "id" uuid (some "gen_random_uuid()") false
    ∷ column "last_name" text none false
    ∷ column "first_name" text none false
    ∷ column "middle_name" text none true
    ∷ column "email" text none true
    ∷ column "phone" text none true
    ∷ column "relation_type" text none true
    ∷ column "created_at" timestamptz (some "now()") false
    ∷ column "updated_at" timestamptz (some "now()") false
    ∷ []

abbrev guardians_constraints : List Constraint
guardians_constraints =
    check "ck_guardians_relation_type" "relation_type IN ('mother', 'father', 'guardian')"
    ∷ primary_key ("id" ∷ [])
    ∷ []

abbrev student_guardian_columns : List Column
student_guardian_columns =
    column "student_id" uuid none false ∷ column "guardian_id" uuid none false ∷ []

abbrev student_guardian_constraints : List Constraint
student_guardian_constraints =
    foreign_key ("student_id" ∷ []) "core.students" cascade
    ∷ foreign_key ("guardian_id" ∷ []) "core.guardians" cascade
    ∷ primary_key ("student_id" ∷ "guardian_id" ∷ [])
    ∷ []

abbrev pseudonym_map_columns : List Column
pseudonym_map_columns =
    column "id" uuid (some "gen_random_uuid()") false
    ∷ column "entity_type" text none false
    ∷ column "entity_id" uuid none false
    ∷ column "field_name" text none false
    ∷ column "original_hash" text none false
    ∷ column "pseudonym" text none false
    ∷ column "created_at" timestamptz (some "now()") false
    ∷ []

abbrev pseudonym_map_constraints : List Constraint
pseudonym_map_constraints =
    unique "uq_pseudonym_map" ("entity_type" ∷ "entity_id" ∷ "field_name" ∷ [])
    ∷ primary_key ("id" ∷ [])
    ∷ []

unfoldable pub upgrade : List Operation
upgrade =
    create_table "core.jobs" jobs_columns jobs_constraints
    ∷ create_index "idx_jobs_status" "core.jobs" ("status" ∷ [])
    ∷ create_table "core.students" students_columns students_constraints
    ∷ create_table "core.guardians" guardians_columns guardians_constraints
    ∷ create_table "core.student_guardian" student_guardian_columns student_guardian_constraints
    ∷ create_table "vault.pseudonym_map" pseudonym_map_columns pseudonym_map_constraints
    ∷ grant "vault.pseudonym_map" "vault_role" ("SELECT" ∷ "INSERT" ∷ "UPDATE" ∷ "DELETE" ∷ [])
    ∷ []

unfoldable pub downgrade : List Operation
downgrade =
    revoke_all "vault.pseudonym_map" "vault_role"
    ∷ drop_table "vault.pseudonym_map"
    ∷ drop_table "core.student_guardian"
    ∷ drop_table "core.guardians"
    ∷ drop_table "core.students"
    ∷ drop_index "idx_jobs_status" "core.jobs"
    ∷ drop_table "core.jobs"
    ∷ []
