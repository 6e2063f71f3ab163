-- ===== src/Migrations.antt =====
-- The migrations that define tables (backend/migrations/versions): what Alembic's operations do to
-- the catalogue of the database. A migration runs in a transaction, so one that PostgreSQL refuses
-- leaves nothing: `none`.
pub mod Initial
pub mod SubjectRequest
pub mod LearningPortal
pub mod Changes
pub mod Inverse
pub mod Reversal
pub mod Encryption
use sirius_vkr.Prelude.{
  Bool, true, false, not, ◌&&◌, ◌||◌, String, Option, none, some, List, [], ◌∷◌, ◌++◌, str_eq,
  if◌then◌else◌,
}
use sirius_vkr.Sql.{exists, delete_where, update_where}

pub data ColumnType : Type 0 where
  uuid text integer small_integer boolean date time timestamptz jsonb : ColumnType

-- `sa.Column`, with the SQL text of its server_default.
pub record Column : Type 0 where
  pub name : String
  pub type : ColumnType
  pub default : Option String
  pub nullable : Bool

abbrev pub column : String → ColumnType → Option String → Bool → Column
column name type default nullable = record {
  name = name;
  type = type;
  default = default;
  nullable = nullable;
}

pub data OnDelete : Type 0 where
  cascade set_null no_action : OnDelete

pub data Constraint : Type 0 where
  check : String → String → Constraint
  primary_key : List String → Constraint
  unique : String → List String → Constraint
  foreign_key : List String → String → OnDelete → Constraint

pub record Index : Type 0 where
  pub name : String
  pub columns : List String

pub record Grant : Type 0 where
  pub role : String
  pub privileges : List String

-- A table under its name with the schema, with the indexes on it and the privileges that the
-- migrations grant on it; the default privileges of a schema are not part of it.
pub record Table : Type 0 where
  pub name : String
  pub columns : List Column
  pub constraints : List Constraint
  pub indexes : List Index
  pub grants : List Grant

-- The operations of the migrations, on the table that each names.
pub data Operation : Type 0 where
  create_table : String → List Column → List Constraint → Operation
  drop_table : String → Operation
  create_index : String → String → List String → Operation
  drop_index : String → String → Operation
  add_column : String → Column → Operation
  drop_column : String → String → Operation
  create_check_constraint : String → String → String → Operation
  drop_constraint : String → String → Operation
  grant : String → String → List String → Operation
  revoke_all : String → String → Operation

abbrev pub is_named : String → Table → Bool
is_named name t = str_eq t.name name

abbrev pub has_table : String → List Table → Bool
has_table name tables = exists (is_named name) tables

-- A foreign key to a table.
abbrev pub targets : String → Constraint → Bool
targets name (foreign_key _ target _) = str_eq target name
targets name _ = false

abbrev pub refers : String → Table → Bool
refers name t = exists (targets name) t.constraints

-- The foreign keys of a new table are to tables that are there, or to itself.
abbrev pub has_targets : String → List Table → List Constraint → Bool
has_targets name tables [] = true
has_targets name tables (foreign_key columns target on_delete ∷ ks) =
    (has_table target tables || str_eq name target) && has_targets name tables ks
has_targets name tables (_ ∷ ks) = has_targets name tables ks

abbrev pub column_named : String → Column → Bool
column_named name c = str_eq c.name name

abbrev pub index_named : String → Index → Bool
index_named name i = str_eq i.name name

abbrev pub check_named : String → Constraint → Bool
check_named name (check own _) = str_eq own name
check_named name (unique own _) = str_eq own name
check_named name _ = false

abbrev pub to_role : String → Grant → Bool
to_role role g = str_eq g.role role

-- A change of the tables of a name, where there is one and each passes a test.
abbrev pub alter : String → (Table → Bool) → (Table → Table) → List Table → Option (List Table)
alter name fits change tables =
    if has_table name tables && not (exists (λ t. is_named name t && not (fits t)) tables)
    then some (update_where (is_named name) change tables)
    else none

unfoldable pub run_operation : Operation → List Table → Option (List Table)
run_operation (create_table name columns constraints) tables =
    if not (has_table name tables) && has_targets name tables constraints
    then some (
        record {
          name = name;
          columns = columns;
          constraints = constraints;
          indexes = [];
          grants = [];
        }
        ∷ tables)
    else none
run_operation (drop_table name) tables =
    if has_table name tables && not (exists (refers name) (delete_where (is_named name) tables))
    then some (delete_where (is_named name) tables)
    else none
run_operation (create_index index name columns) tables =
    alter name (λ t. not (exists (index_named index) t.indexes))
      (λ t. record t { indexes = t.indexes ++ record { name = index; columns = columns } ∷ [] })
      tables
run_operation (drop_index index name) tables =
    alter name (λ t. exists (index_named index) t.indexes)
      (λ t. record t { indexes = delete_where (index_named index) t.indexes }) tables
run_operation (add_column name c) tables =
    alter name (λ t. not (exists (column_named c.name) t.columns))
      (λ t. record t { columns = t.columns ++ c ∷ [] }) tables
run_operation (drop_column name own) tables =
    alter name (λ t. exists (column_named own) t.columns)
      (λ t. record t { columns = delete_where (column_named own) t.columns }) tables
run_operation (create_check_constraint own name condition) tables =
    alter name (λ t. not (exists (check_named own) t.constraints))
      (λ t. record t { constraints = t.constraints ++ check own condition ∷ [] }) tables
run_operation (drop_constraint own name) tables =
    alter name (λ t. exists (check_named own) t.constraints)
      (λ t. record t { constraints = delete_where (check_named own) t.constraints }) tables
run_operation (grant name role privileges) tables =
    alter name (λ t. true)
      (λ t. record t { grants = t.grants ++ record { role = role; privileges = privileges } ∷ [] })
      tables
run_operation (revoke_all name role) tables =
    alter name (λ t. true) (λ t. record t { grants = delete_where (to_role role) t.grants }) tables

-- The operations of a migration in turn.
unfoldable pub run : List Operation → List Table → Option (List Table)
unfolding run_operation
run [] tables = some tables
run (o ∷ os) tables = elim (run_operation o tables) [ none ↦ none | some after ↦ run os after ]
