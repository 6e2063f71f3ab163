-- ===== src/Migrations/Inverse.antt =====
-- What undoes each operation of a migration that adds something.
use mathlib.Core.Path.{subst}
use sirius_vkr.Prelude.{
  ◌≡◌, refl, sym, ap, ◌∙◌, true, not, none, some, List, [], ◌∷◌, ◌++◌, inl, inr, Option-cases,
  str_eq_refl,
}
use sirius_vkr.Sql.{exists, delete_where}
use sirius_vkr.Migrations.{
  Grant, check, Table, Operation, create_table, drop_table, create_index, drop_index, add_column,
  drop_column, create_check_constraint, drop_constraint, grant, revoke_all, column_named,
  index_named, check_named, to_role, run_operation, run,
}
use sirius_vkr.Migrations.Changes.{
  IsAdding, inverse, IsFresh, IsClosed, alter_back, alter-IsClosed, create_back, create-IsClosed,
  added_check-refers, added_row, fresh_grant,
}

-- An operation that adds leaves closed tables closed, and its inverse takes it back.
inverse-run_operation :
    (o : Operation) (tables after : List Table)
    → IsAdding o
    → IsFresh o tables
    → IsClosed tables
    → run_operation o tables ≡ some after
    → (run_operation (inverse o) after ≡ some tables) × IsClosed after
unfolding run_operation
inverse-run_operation (create_table name columns constraints) tables after _ _ closed h = (
  create_back name columns constraints tables after h closed,
  create-IsClosed name columns constraints tables after h closed,
)
inverse-run_operation (create_index index name columns) tables after _ _ closed h = (
  alter_back name _ _ _ _ (λ t. refl)
      (λ t fresh.
        let (found, gone) = added_row (index_named index) t.indexes _ (str_eq_refl index) fresh in
        (found, ap (λ xs. record t { indexes = xs }) gone))
      tables after h,
  alter-IsClosed name _ _ (λ t. refl) (λ n t. refl) tables after h closed,
)
inverse-run_operation (add_column name c) tables after _ _ closed h = (
  alter_back name _ _ _ _ (λ t. refl)
      (λ t fresh.
        let (found, gone) =
          added_row (column_named c.name) t.columns c (str_eq_refl c.name) fresh in
        (found, ap (λ xs. record t { columns = xs }) gone))
      tables after h,
  alter-IsClosed name _ _ (λ t. refl) (λ n t. refl) tables after h closed,
)
inverse-run_operation (create_check_constraint own name condition) tables after _ _ closed h = (
  alter_back name _ _ _ _ (λ t. refl)
      (λ t fresh.
        let (found, gone) =
          added_row (check_named own) t.constraints (check own condition) (str_eq_refl own) fresh in
        (found, ap (λ xs. record t { constraints = xs }) gone))
      tables after h,
  alter-IsClosed name _ _ (λ t. refl) (λ n. added_check-refers n own condition) tables after h
      closed,
)
inverse-run_operation (grant name role privileges) tables after _ fresh closed h =
    let given : Grant = record { role = role; privileges = privileges } in
    let change = λ (t : Table). record t { grants = t.grants ++ given ∷ [] } in
    (
      alter_back name (λ t. not (exists (to_role role) t.grants)) (λ t. true) change
          (λ t. record t { grants = delete_where (to_role role) t.grants }) (λ t. refl)
          (λ t new.
            let (_, gone) = added_row (to_role role) t.grants given (str_eq_refl role) new in
            (refl, ap (λ xs. record t { grants = xs }) gone))
          tables after (fresh_grant name role change tables after fresh h),
      alter-IsClosed name (λ t. true) change (λ t. refl) (λ n t. refl) tables after h closed,
    )
inverse-run_operation (drop_table name) tables after adding _ closed h = absurd adding
inverse-run_operation (drop_index index name) tables after adding _ closed h = absurd adding
inverse-run_operation (drop_column name own) tables after adding _ closed h = absurd adding
inverse-run_operation (drop_constraint own name) tables after adding _ closed h = absurd adding
inverse-run_operation (revoke_all name role) tables after adding _ closed h = absurd adding

-- Each operation adds, and each GRANT is to a role without privileges when its turn comes.
abbrev pub AreFresh : List Operation → List Table → Type 0
AreFresh [] tables = Unit
AreFresh (o ∷ os) tables =
    IsAdding o
    × IsFresh o tables
    × ((after : List Table) → run_operation o tables ≡ some after → AreFresh os after)

-- The inverses in the opposite order.
abbrev pub inverses : List Operation → List Operation
inverses [] = []
inverses (o ∷ os) = inverses os ++ inverse o ∷ []

run_cases :
    (o : Operation) (os : List Operation) (tables after : List Table)
    → run (o ∷ os) tables ≡ some after
    → (middle : List Table) × (run_operation o tables ≡ some middle) × (run os middle ≡ some after)
unfolding run
run_cases o os tables after h = elim (Option-cases (run_operation o tables)) [
  | inl refused ↦ let stopped : run (o ∷ os) tables ≡ none = rw (run, refused) refl in absurd (cc)
  | inr (middle, done) ↦ (middle, done, (rw (run, done) at h))
]

run-append :
    (os : List Operation) (o : Operation) (tables middle : List Table)
    → run os tables ≡ some middle
    → run (os ++ o ∷ []) tables ≡ run (o ∷ []) middle
unfolding run
run-append [] o tables middle h = let same : tables ≡ middle = cc in ap (λ ts. run (o ∷ []) ts) same
run-append (p ∷ os) o tables middle h =
    let (next, done, rest) = run_cases p os tables middle h in
    rw (run, done) (run-append os o next middle rest)

-- The inverses of operations that add, in the opposite order, take back what a run of them did, and
-- the run leaves closed tables closed.
pub run-inverses :
    (os : List Operation) (tables after : List Table)
    → AreFresh os tables
    → IsClosed tables
    → run os tables ≡ some after
    → (run (inverses os) after ≡ some tables) × IsClosed after
unfolding run
run-inverses [] tables after fresh closed h =
    let same : tables ≡ after = cc in (ap some (sym same), subst IsClosed same closed)
run-inverses (o ∷ os) tables after (adding, fresh, later) closed h =
    let (middle, done, rest) = run_cases o os tables after h in
    let (undone, closed') = inverse-run_operation o tables middle adding fresh closed done in
    let (back, closed'') = run-inverses os middle after (later middle done) closed' rest in
    (run-append (inverses os) (inverse o) after middle back ∙ rw (run, undone) refl, closed'')
