-- ===== src/Tests/Schemas.antt =====
-- Witnesses for the migrations.
use sirius_vkr.Prelude.{◌≡◌, refl, String, arith, true, Option, is_some, none, some, List, [], ◌∷◌}
use sirius_vkr.Migrations.{Constraint, Table, run_operation, run, foreign_key, cascade}
use sirius_vkr.Migrations.Changes.{IsClosed}
use sirius_vkr.Migrations.Initial
use sirius_vkr.Migrations.SubjectRequest
use sirius_vkr.Migrations.Reversal.{
  initial_tables, subject_request, upgrade, downgrade, downgrade-upgrade,
}
use sirius_vkr.Migrations.Encryption.{
  Columns, text, pii, alter_columns, encrypt_as, decrypt_as, encrypted, decrypt_as-encrypt_as,
}
use sirius_vkr.Prelude.{All, ℕ}
use sirius_vkr.Tests.Instances.{pg}

-- Two tables of the learning contour, one with a foreign key to the other.
abbrev table : String → List Constraint → Table
table name constraints = record {
  name = name;
  columns = [];
  constraints = constraints;
  indexes = [];
  grants = [];
}

abbrev tables : List Table
tables =
    table "core.groups" (foreign_key ("course_id" ∷ []) "core.courses" cascade ∷ [])
    ∷ table "core.courses" []
    ∷ []

closed : IsClosed tables
closed name h = ground arith

abbrev after : List Table
after = elim (run (upgrade subject_request) tables) [ none ↦ [] | some ts ↦ ts ]

goes_through : run (upgrade subject_request) tables ≡ some after
unfolding run run_operation SubjectRequest.upgrade
goes_through = refl

downgrade-upgrade_example : (run (downgrade subject_request) after ≡ some tables) × IsClosed after
downgrade-upgrade_example = downgrade-upgrade subject_request tables after closed goes_through

-- The first migration goes through on an empty database.
initial_run : (λ (o : Option (List Table)). is_some o) (run (upgrade initial_tables) []) ≡ true
unfolding run run_operation Initial.upgrade
initial_run = refl

-- A table of text columns with two rows, and a nonce for each row.
abbrev row_cells : String → List (Option String)
row_cells c = some "Иван" ∷ none ∷ []

abbrev text_columns : Columns
text_columns c = some (text (row_cells c))

abbrev row_nonce : String → ℕ → ℕ
row_nonce col n = n

are_texts : All (λ c. text_columns c ≡ some (text (row_cells c))) pii
unfolding pii
are_texts = (refl, (refl, (refl, (refl, (refl, tt)))))

decrypt_as-encrypt_as_example :
    (t' : Columns) × (t'' : Columns) × (alter_columns (encrypt_as pg row_nonce) pii text_columns
      ≡ some t')
    × All (λ c. t' c ≡ some (encrypted pg row_nonce row_cells c)) pii
    × (alter_columns (decrypt_as pg row_nonce) pii t' ≡ some t'')
    × ((c : String) → t'' c ≡ text_columns c)
decrypt_as-encrypt_as_example = decrypt_as-encrypt_as pg row_nonce row_cells text_columns are_texts
