-- ===== src/Migrations/LearningPortal.antt =====
-- 20260617_d4e5f6a7b8c9_learning_portal_content.py
use sirius_vkr.Prelude.{true, false, none, some, List, [], ◌∷◌}
use sirius_vkr.Migrations.{
  uuid, text, integer, small_integer, time, timestamptz, Column, column, cascade, Constraint, check,
  primary_key, unique, foreign_key, Operation, create_table, drop_table, create_index, drop_index,
  add_column, drop_column, create_check_constraint, drop_constraint,
}

abbrev modules_columns : List Column
modules_columns =
    column "id" uuid (some "gen_random_uuid()") false
    ∷ column "course_id" uuid none false
    ∷ column "title" text none false
    ∷ column "position" integer (some "0") false
    ∷ column "created_at" timestamptz (some "now()") false
    ∷ []

abbrev modules_constraints : List Constraint
modules_constraints =
    foreign_key ("course_id" ∷ []) "core.courses" cascade ∷ primary_key ("id" ∷ []) ∷ []

abbrev lessons_columns : List Column
lessons_columns =
    column "id" uuid (some "gen_random_uuid()") false
    ∷ column "module_id" uuid none false
    ∷ column "title" text none false
    ∷ column "position" integer (some "0") false
    ∷ column "content" text none true
    ∷ column "material_url" text none true
    ∷ column "created_at" timestamptz (some "now()") false
    ∷ []

abbrev lessons_constraints : List Constraint
lessons_constraints =
    foreign_key ("module_id" ∷ []) "core.modules" cascade ∷ primary_key ("id" ∷ []) ∷ []

abbrev schedule_slots_columns : List Column
schedule_slots_columns =
    column "id" uuid (some "gen_random_uuid()") false
    ∷ column "group_id" uuid none false
    ∷ column "weekday" small_integer none false
    ∷ column "starts_at" time none false
    ∷ column "ends_at" time none false
    ∷ column "room" text none true
    ∷ []

abbrev schedule_slots_constraints : List Constraint
schedule_slots_constraints =
    check "ck_schedule_slots_weekday" "weekday BETWEEN 0 AND 6"
    ∷ foreign_key ("group_id" ∷ []) "core.groups" cascade
    ∷ primary_key ("id" ∷ [])
    ∷ []

abbrev student_stats_columns : List Column
student_stats_columns =
    column "student_id" uuid none false
    ∷ column "xp" integer (some "0") false
    ∷ column "level" integer (some "1") false
    ∷ column "streak_days" integer (some "0") false
    ∷ column "updated_at" timestamptz (some "now()") false
    ∷ []

abbrev student_stats_constraints : List Constraint
student_stats_constraints =
    foreign_key ("student_id" ∷ []) "core.students" cascade ∷ primary_key ("student_id" ∷ []) ∷ []

abbrev badges_columns : List Column
badges_columns =
    column "id" uuid (some "gen_random_uuid()") false
    ∷ column "code" text none false
    ∷ column "title" text none false
    ∷ column "description" text none true
    ∷ column "icon" text none true
    ∷ []

abbrev badges_constraints : List Constraint
badges_constraints = primary_key ("id" ∷ []) ∷ unique "uq_badges_code" ("code" ∷ []) ∷ []

abbrev student_badges_columns : List Column
student_badges_columns =
    column "student_id" uuid none false
    ∷ column "badge_id" uuid none false
    ∷ column "awarded_at" timestamptz (some "now()") false
    ∷ []

abbrev student_badges_constraints : List Constraint
student_badges_constraints =
    foreign_key ("student_id" ∷ []) "core.students" cascade
    ∷ foreign_key ("badge_id" ∷ []) "core.badges" cascade
    ∷ primary_key ("student_id" ∷ "badge_id" ∷ [])
    ∷ []

unfoldable pub upgrade : List Operation
upgrade =
    create_table "core.modules" modules_columns modules_constraints
    ∷ create_index "ix_modules_course_id" "core.modules" ("course_id" ∷ [])
    ∷ create_table "core.lessons" lessons_columns lessons_constraints
    ∷ create_index "ix_lessons_module_id" "core.lessons" ("module_id" ∷ [])
    ∷ add_column "core.enrollments" (column "progress" integer (some "0") false)
    ∷ create_check_constraint "ck_enrollments_progress" "core.enrollments"
        "progress BETWEEN 0 AND 100"
    ∷ create_table "core.schedule_slots" schedule_slots_columns schedule_slots_constraints
    ∷ create_index "ix_schedule_slots_group_id" "core.schedule_slots" ("group_id" ∷ [])
    ∷ create_table "core.student_stats" student_stats_columns student_stats_constraints
    ∷ create_table "core.badges" badges_columns badges_constraints
    ∷ create_table "core.student_badges" student_badges_columns student_badges_constraints
    ∷ []

unfoldable pub downgrade : List Operation
downgrade =
    drop_table "core.student_badges"
    ∷ drop_table "core.badges"
    ∷ drop_table "core.student_stats"
    ∷ drop_index "ix_schedule_slots_group_id" "core.schedule_slots"
    ∷ drop_table "core.schedule_slots"
    ∷ drop_constraint "ck_enrollments_progress" "core.enrollments"
    ∷ drop_column "core.enrollments" "progress"
    ∷ drop_index "ix_lessons_module_id" "core.lessons"
    ∷ drop_table "core.lessons"
    ∷ drop_index "ix_modules_course_id" "core.modules"
    ∷ drop_table "core.modules"
    ∷ []
