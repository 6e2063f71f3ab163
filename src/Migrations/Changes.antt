-- ===== src/Migrations/Changes.antt =====
-- Changes of the tables by the operations of a migration, and what takes them back.
use mathlib.Core.Path.{subst}
use sirius_vkr.Prelude.{
  ◌≡◌, refl, sym, ap, ◌∙◌, Bool, true, false, not, ◌&&◌, ◌||◌, String, some, List, [], ◌∷◌, ◌++◌,
  arith, inl, inr, Bool-cases, str_eq, str_eq_iff, str_eq_refl,
}
use sirius_vkr.Sql.{exists, delete_where, update_where}
use sirius_vkr.Sql.Laws.{exists-append, exists-update_where}
use sirius_vkr.Migrations.{
  Column, Constraint, check, primary_key, unique, foreign_key, Table, Operation, create_table,
  drop_table, create_index, drop_index, add_column, drop_column, create_check_constraint,
  drop_constraint, grant, revoke_all, is_named, has_table, targets, refers, has_targets, to_role,
  alter, run_operation,
}

-- The operations that add: each but a drop and a REVOKE.
abbrev pub IsAdding : Operation → Type 0
IsAdding (create_table _ _ _) = Unit
IsAdding (create_index _ _ _) = Unit
IsAdding (add_column _ _) = Unit
IsAdding (create_check_constraint _ _ _) = Unit
IsAdding (grant _ _ _) = Unit
IsAdding _ = ⊥

abbrev pub inverse : Operation → Operation
inverse (create_table name _ _) = drop_table name
inverse (create_index index name _) = drop_index index name
inverse (add_column name c) = drop_column name c.name
inverse (create_check_constraint own name _) = drop_constraint own name
inverse (grant name role _) = revoke_all name role
inverse o = o

-- A role has privileges to a table.
abbrev pub is_granted : String → String → List Table → Bool
is_granted name role tables =
    exists (λ (t : Table). is_named name t && exists (to_role role) t.grants) tables

-- A GRANT is to a role that has no privileges yet.
abbrev pub IsFresh : Operation → List Table → Type 0
IsFresh (grant name role _) tables = is_granted name role tables ≡ false
IsFresh _ tables = Unit

-- Every foreign key is to a table that is there.
abbrev pub IsClosed : List Table → Type 0
IsClosed tables =
    (name : String) → exists (refers name) tables ≡ true → has_table name tables ≡ true

delete_none :
    {A : Type 0} (p : A → Bool) (xs : List A) → exists p xs ≡ false → delete_where p xs ≡ xs
delete_none p [] h = refl
delete_none p (x ∷ xs) h = ground (arith, delete_none p xs)

delete_where-append :
    {A : Type 0} (p : A → Bool) (xs : List A) (x : A)
    → exists p xs ≡ false
    → p x ≡ true
    → delete_where p (xs ++ x ∷ []) ≡ xs
delete_where-append p [] x h own = rw own refl
delete_where-append p (y ∷ ys) x h own = ground (arith, delete_where-append p ys x)

-- A change that was made found its table.
pub alter_cases :
    (name : String) (fits : Table → Bool) (change : Table → Table) (tables after : List Table)
    → alter name fits change tables ≡ some after
    → (has_table name tables ≡ true)
      × (exists (λ t. is_named name t && not (fits t)) tables ≡ false)
      × (update_where (is_named name) change tables ≡ after)
alter_cases name fits change tables after h = ground arith

module _ (name : String) (fits fits' : Table → Bool) (change back : Table → Table)
    (keeps : (t : Table) → (change t).name ≡ t.name)
    (undone : (t : Table) → fits t ≡ true → (fits' (change t) ≡ true) × (back (change t) ≡ t)) where
  rows_back :
      (ts : List Table)
      → exists (λ t. is_named name t && not (fits t)) ts ≡ false
      → (exists (λ t. is_named name t && not (fits' t)) (update_where (is_named name) change ts)
          ≡ false)
        × (update_where (is_named name) back (update_where (is_named name) change ts) ≡ ts)
  rows_back [] h = (refl, refl)
  rows_back (t ∷ ts) h = ground (arith, rows_back ts, undone t, keeps t)

  pub alter_back :
      (tables after : List Table)
      → alter name fits change tables ≡ some after
      → alter name fits' back after ≡ some tables
  alter_back tables after h =
      let (there, fitting, same) = alter_cases name fits change tables after h in
      let (fitting', undone_all) = rows_back tables fitting in
      let there' =
        exists-update_where (is_named name) (is_named name) change tables
          (λ t. ap (λ n. str_eq n name) (keeps t))
        ∙ there in
      subst (λ ts. alter name fits' back ts ≡ some tables) same
        (rw (there', fitting', undone_all) refl)

-- A change that keeps the name and the foreign keys of each table keeps the tables closed.
pub alter-IsClosed :
    (name : String) (fits : Table → Bool) (change : Table → Table)
    → ((t : Table) → (change t).name ≡ t.name)
    → ((n : String) (t : Table) → refers n (change t) ≡ refers n t)
    → (tables after : List Table) → alter name fits change tables ≡ some after
    → IsClosed tables
    → IsClosed after
alter-IsClosed name fits change keeps same_keys tables after h closed n refers_n =
    let (_, _, same) = alter_cases name fits change tables after h in
    ap (has_table n) (sym same)
    ∙ exists-update_where (is_named name) (is_named n) change tables
        (λ t. ap (λ m. str_eq m n) (keeps t))
    ∙ closed n (
        sym (exists-update_where (is_named name) (refers n) change tables (same_keys n))
        ∙ ap (exists (refers n)) same
        ∙ refers_n)

-- A new table.
abbrev pub created : (name : String) (columns : List Column) (constraints : List Constraint) → Table
created name columns constraints = record {
  name = name;
  columns = columns;
  constraints = constraints;
  indexes = [];
  grants = [];
}

pub create_cases :
    (name : String) (columns : List Column) (constraints : List Constraint)
    (tables after : List Table)
    → run_operation (create_table name columns constraints) tables ≡ some after
    → (has_table name tables ≡ false)
      × (has_targets name tables constraints ≡ true)
      × (created name columns constraints ∷ tables ≡ after)
unfolding run_operation
create_cases name columns constraints tables after h = ground arith

and-true : (a b : Bool) → (a && b) ≡ true → (a ≡ true) × (b ≡ true)
and-true a b h = ground arith

or-left : (a b : Bool) → (a || b) ≡ true → a ≡ false → b ≡ true
or-left a b h other = ground arith

or_comm : (a b : Bool) → (a || b) ≡ true → (b || a) ≡ true
or_comm a b h = ground arith

or-right : (a b : Bool) → b ≡ true → (a || b) ≡ true
or-right a b h = ground arith

has_targets-targets :
    (name n : String) (tables : List Table) (ks : List Constraint)
    → has_targets name tables ks ≡ true
    → exists (targets n) ks ≡ true
    → (str_eq name n || has_table n tables) ≡ true
has_targets-targets name n tables [] h e = cc
has_targets-targets name n tables (foreign_key columns target on_delete ∷ ks) h e =
    elim (Bool-cases (str_eq target n)) [
      | inl same ↦
          let equal : target ≡ n = (str_eq_iff target n).0 same in
          let first =
            (and-true (has_table target tables || str_eq name target) (has_targets name tables ks)
              h).0 in
          or_comm (has_table n tables) (str_eq name n)
            (subst (λ x. (has_table x tables || str_eq name x) ≡ true) equal first)
      | inr other ↦
          has_targets-targets name n tables ks
            (and-true (has_table target tables || str_eq name target) (has_targets name tables ks)
              h).1
            (or-left (str_eq target n) (exists (targets n) ks) e other)
    ]
has_targets-targets name n tables (check a b ∷ ks) h e = has_targets-targets name n tables ks h e
has_targets-targets name n tables (primary_key a ∷ ks) h e =
    has_targets-targets name n tables ks h e
has_targets-targets name n tables (unique a b ∷ ks) h e = has_targets-targets name n tables ks h e

pub create-IsClosed :
    (name : String) (columns : List Column) (constraints : List Constraint)
    (tables after : List Table)
    → run_operation (create_table name columns constraints) tables ≡ some after
    → IsClosed tables
    → IsClosed after
create-IsClosed name columns constraints tables after h closed =
    let (absent, targeted, same) = create_cases name columns constraints tables after h in
    subst IsClosed same (λ n refers_n. elim (Bool-cases (exists (targets n) constraints)) [
      | inl own ↦ has_targets-targets name n tables constraints targeted own
      | inr other ↦ or-right (str_eq name n) (has_table n tables) (
          closed n
            (or-left (exists (targets n) constraints) (exists (refers n) tables) refers_n other))
    ])

pub create_back :
    (name : String) (columns : List Column) (constraints : List Constraint)
    (tables after : List Table)
    → run_operation (create_table name columns constraints) tables ≡ some after
    → IsClosed tables
    → run_operation (drop_table name) after ≡ some tables
unfolding run_operation
create_back name columns constraints tables after h closed =
    let (absent, targeted, same) = create_cases name columns constraints tables after h in
    let unreferred : exists (refers name) tables ≡ false =
      elim (Bool-cases (exists (refers name) tables)) [
        | inl found ↦ let there = closed name found in absurd (cc)
        | inr free ↦ free
      ] in
    subst (λ ts. run_operation (drop_table name) ts ≡ some tables) same
      (rw (str_eq_refl name, delete_none (is_named name) tables absent, unreferred) refl)

pub added_check-refers :
    (n own condition : String) (t : Table)
    → exists (targets n) (t.constraints ++ check own condition ∷ []) ≡ refers n t
added_check-refers n own condition t =
    exists-append (targets n) t.constraints (check own condition ∷ []) ∙ or-false (refers n t)
  where
    or-false : (b : Bool) → (b || (false || false)) ≡ b
    or-false true = refl
    or-false false = refl

not-true : (b : Bool) → not b ≡ true → b ≡ false
not-true b h = ground arith

-- What was added behind rows of which none has the name is found, and taken away again.
pub added_row :
    {A : Type 0} (p : A → Bool) (xs : List A) (x : A)
    → p x ≡ true
    → not (exists p xs) ≡ true
    → (exists p (xs ++ x ∷ []) ≡ true) × (delete_where p (xs ++ x ∷ []) ≡ xs)
added_row p xs x own fresh =
    let none_there = not-true (exists p xs) fresh in
    (
      exists-append p xs (x ∷ []) ∙ rw (none_there, own) refl,
      delete_where-append p xs x none_there own,
    )

not-not :
    (ts : List Table) (p q : Table → Bool)
    → exists (λ t. p t && not (not (q t))) ts ≡ exists (λ t. p t && q t) ts
not-not [] p q = refl
not-not (t ∷ ts) p q = ground (arith, not-not ts p q)

-- A GRANT to a role without privileges, as a change that tests for it.
pub fresh_grant :
    (name role : String) (change : Table → Table) (tables after : List Table)
    → is_granted name role tables ≡ false
    → alter name (λ t. true) change tables ≡ some after
    → alter name (λ t. not (exists (to_role role) t.grants)) change tables ≡ some after
fresh_grant name role change tables after fresh h =
    let (there, _, same) = alter_cases name (λ t. true) change tables after h in
    let new : exists (λ t. is_named name t && not (not (exists (to_role role) t.grants))) tables
        ≡ false =
      not-not tables (is_named name) (λ t. exists (to_role role) t.grants) ∙ fresh in
    rw (there, new) (ap some same)
