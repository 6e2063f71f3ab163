-- ===== src/Migrations/Reversal.antt =====
-- The downgrades of the migrations that define tables.
use mathlib.Core.Path.{subst}
use sirius_vkr.Prelude.{
  ◌≡◌, refl, sym, ap, ◌∙◌, false, ◌&&◌, String, some, List, [], ◌∷◌, All, arith, str_eq_refl,
}
use sirius_vkr.Sql.{exists}
use sirius_vkr.Sql.Laws.{exists-update_where}
use sirius_vkr.Migrations.{
  Column, Constraint, Table, Operation, create_table, drop_table, create_index, drop_index,
  add_column, drop_column, create_check_constraint, drop_constraint, grant, revoke_all, is_named,
  has_table, to_role, run_operation, run,
}
use sirius_vkr.Migrations.Changes.{
  IsAdding, IsFresh, IsClosed, is_granted, alter_cases, create_cases,
}
use sirius_vkr.Migrations.Inverse.{AreFresh, inverses, run-inverses}
use sirius_vkr.Migrations.Initial
use sirius_vkr.Migrations.SubjectRequest
use sirius_vkr.Migrations.LearningPortal

pub data Migration : Type 0 where
  initial_tables subject_request learning_portal : Migration

abbrev pub upgrade : Migration → List Operation
upgrade initial_tables = Initial.upgrade
upgrade subject_request = SubjectRequest.upgrade
upgrade learning_portal = LearningPortal.upgrade

abbrev pub downgrade : Migration → List Operation
downgrade initial_tables = Initial.downgrade
downgrade subject_request = SubjectRequest.downgrade
downgrade learning_portal = LearningPortal.downgrade

downgrade-inverses : (m : Migration) → downgrade m ≡ inverses (upgrade m)
unfolding Initial.upgrade Initial.downgrade SubjectRequest.upgrade SubjectRequest.downgrade
    LearningPortal.upgrade LearningPortal.downgrade
downgrade-inverses initial_tables = refl
downgrade-inverses subject_request = refl
downgrade-inverses learning_portal = refl

none_granted :
    (name role : String) (ts : List Table)
    → has_table name ts ≡ false
    → is_granted name role ts ≡ false
none_granted name role [] h = refl
none_granted name role (t ∷ ts) h = ground (arith, none_granted name role ts)

created-is_granted :
    (name role : String) (columns : List Column) (constraints : List Constraint)
    (tables after : List Table)
    → run_operation (create_table name columns constraints) tables ≡ some after
    → is_granted name role after ≡ false
created-is_granted name role columns constraints tables after h =
    let (absent, _, same) = create_cases name columns constraints tables after h in
    subst (λ ts. is_granted name role ts ≡ false) same
      (rw (str_eq_refl name, none_granted name role tables absent) refl)

indexed-is_granted :
    (name role index table : String) (columns : List String) (tables after : List Table)
    → run_operation (create_index index table columns) tables ≡ some after
    → is_granted name role tables ≡ false
    → is_granted name role after ≡ false
unfolding run_operation
indexed-is_granted name role index table columns tables after h fresh =
    let (_, _, same) = alter_cases table _ _ tables after h in
    ap (is_granted name role) (sym same)
    ∙ exists-update_where (is_named table)
        (λ (t : Table). is_named name t && exists (to_role role) t.grants) _ tables (λ t. refl)
    ∙ fresh

-- The operations that add no privileges.
abbrev IsPlain : Operation → Type 0
IsPlain (create_table _ _ _) = Unit
IsPlain (create_index _ _ _) = Unit
IsPlain (add_column _ _) = Unit
IsPlain (create_check_constraint _ _ _) = Unit
IsPlain _ = ⊥

IsPlain-IsFresh : (o : Operation) (tables : List Table) → IsPlain o → IsAdding o × IsFresh o tables
IsPlain-IsFresh (create_table _ _ _) tables h = (tt, tt)
IsPlain-IsFresh (create_index _ _ _) tables h = (tt, tt)
IsPlain-IsFresh (add_column _ _) tables h = (tt, tt)
IsPlain-IsFresh (create_check_constraint _ _ _) tables h = (tt, tt)
IsPlain-IsFresh (drop_table _) tables h = absurd h
IsPlain-IsFresh (drop_index _ _) tables h = absurd h
IsPlain-IsFresh (drop_column _ _) tables h = absurd h
IsPlain-IsFresh (drop_constraint _ _) tables h = absurd h
IsPlain-IsFresh (grant _ _ _) tables h = absurd h
IsPlain-IsFresh (revoke_all _ _) tables h = absurd h

IsPlain-AreFresh : (os : List Operation) (tables : List Table) → All IsPlain os → AreFresh os tables
IsPlain-AreFresh [] tables h = tt
IsPlain-AreFresh (o ∷ os) tables (p, ps) =
    let (adding, fresh) = IsPlain-IsFresh o tables p in
    (adding, fresh, λ after _. IsPlain-AreFresh os after ps)

upgrade-AreFresh : (m : Migration) (tables : List Table) → AreFresh (upgrade m) tables
unfolding Initial.upgrade SubjectRequest.upgrade LearningPortal.upgrade
upgrade-AreFresh initial_tables tables = (
  tt,
  tt,
  λ _ _. (
    tt,
    tt,
    λ _ _. (
      tt,
      tt,
      λ _ _. (
        tt,
        tt,
        λ _ _.
            (tt, tt, λ t5 _. (tt, tt, λ t6 h. (tt, created-is_granted _ _ _ _ t5 t6 h, λ _ _. tt))),
      ),
    ),
  ),
)
upgrade-AreFresh subject_request tables = (
  tt,
  tt,
  λ t1 h1. (
    tt,
    tt,
    λ t2 h2. (
      tt,
      indexed-is_granted _ _ _ _ _ t1 t2 h2 (created-is_granted _ _ _ _ tables t1 h1),
      λ _ _. tt,
    ),
  ),
)
upgrade-AreFresh learning_portal tables =
    IsPlain-AreFresh LearningPortal.upgrade tables
      (tt, (tt, (tt, (tt, (tt, (tt, (tt, (tt, (tt, (tt, (tt, tt)))))))))))

-- Where every foreign key is to a table that is there and the upgrade goes through, it leaves that so,
-- and the downgrade from there goes through and leaves the tables as they were before the upgrade.
pub downgrade-upgrade :
    (m : Migration) (tables after : List Table)
    → IsClosed tables
    → run (upgrade m) tables ≡ some after
    → (run (downgrade m) after ≡ some tables) × IsClosed after
downgrade-upgrade m tables after closed h =
    let (back, closed') =
      run-inverses (upgrade m) tables after (upgrade-AreFresh m tables) closed h in
    (ap (λ os. run os after) (downgrade-inverses m) ∙ back, closed')
