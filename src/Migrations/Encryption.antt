-- ===== src/Migrations/Encryption.antt =====
-- 20260613_a1b2c3d4e5f6_auth_roles_pii_encryption.py: the columns with personal data, which its
-- upgrade encrypts and its downgrade decrypts.
use mathlib.Core.Path.{subst}
use sirius_vkr.Prelude.{
  ℕ, suc, str_eq_iff, arith, ◌≡◌, refl, sym, ◌∙◌, false, String, Option, none, some, List, [], ◌∷◌,
  map, All, str_eq, str_eq_refl, str_eq_comm, AreDistinct, Bool-cases, if◌then◌else◌, inl, inr,
}
use sirius_vkr.Models.People.{Bytes}
use sirius_vkr.Postgres.{Postgres, encrypt_pii, decrypt_pii, decrypt_pii-encrypt_pii}

-- The cells of a column, row by row, by its type.
pub data Cells : Type 0 where
  text : List (Option String) → Cells
  bytea : List (Option Bytes) → Cells

-- The columns of a table by their names.
abbrev pub Columns : Type 0
Columns = String → Option Cells

-- `_STUDENT_PII` and `_GUARDIAN_PII`
unfoldable pub pii : List String
pii = "last_name" ∷ "first_name" ∷ "middle_name" ∷ "email" ∷ "phone" ∷ []

-- The table with a column replaced.
abbrev with_cells : String → Cells → Columns → Columns
with_cells col cells t c = if str_eq col c then some cells else t c

-- One ALTER TABLE ... ALTER COLUMN, refused on a column that is not there.
unfoldable pub alter_column : (String → Cells → Option Cells) → String → Columns → Option Columns
alter_column change col t = elim (t col) [
  | none ↦ none
  | some cells ↦ elim (change col cells) [ none ↦ none | some new ↦ some (with_cells col new t) ]
]

-- `for col in ...: op.execute(...)`
unfoldable pub alter_columns :
    (String → Cells → Option Cells) → List String → Columns → Option Columns
unfolding alter_column
alter_columns change [] t = some t
alter_columns change (col ∷ cols) t = elim (alter_column change col t) [
  | none ↦ none
  | some t' ↦ alter_columns change cols t'
]

-- The columns are changed from the old cells to the new ones, and no other is.
record Altered (cols : List String) (new : String → Cells) (t t' : Columns) : Type 0 where
  pub changed : All (λ c. t' c ≡ some (new c)) cols
  pub others : (c : String) → All (λ k. str_eq k c ≡ false) cols → t' c ≡ t c

apart_from :
    (col : String) (cols : List String)
    → All (λ k. str_eq col k ≡ false) cols
    → All (λ k. str_eq k col ≡ false) cols
apart_from col [] h = tt
apart_from col (c ∷ cols) (h, hs) = (str_eq_comm c col ∙ h, apart_from col cols hs)

module _ (change : String → Cells → Option Cells) (old new : String → Cells) where
  -- A column that the change takes.
  abbrev Takes : Columns → String → Type 0
  Takes t c = (t c ≡ some (old c)) × (change c (old c) ≡ some (new c))

  alter_column_ok :
      (col : String) (t : Columns)
      → Takes t col
      → alter_column change col t ≡ some (with_cells col (new col) t)
  unfolding alter_column
  alter_column_ok col t (there, taken) = rw (alter_column, there, taken) refl

  -- Another column stays.
  with_cells_other :
      (col c : String) (cells : Cells) (t : Columns)
      → str_eq col c ≡ false
      → with_cells col cells t c ≡ t c
  with_cells_other col c cells t h = rw h refl

  still_taken :
      (col : String) (cols : List String) (t : Columns)
      → All (λ k. str_eq col k ≡ false) cols
      → All (Takes t) cols
      → All (Takes (with_cells col (new col) t)) cols
  still_taken col [] t ds ts = tt
  still_taken col (c ∷ cols) t (a, ds) ((there, taken), ts) =
      ((with_cells_other col c (new col) t a ∙ there, taken), still_taken col cols t ds ts)

  alter_columns_ok :
      (cols : List String) (t : Columns)
      → AreDistinct cols
      → All (Takes t) cols
      → (t' : Columns) × (alter_columns change cols t ≡ some t') × Altered cols new t t'
  unfolding alter_columns
  alter_columns_ok [] t d h = (t, refl, record { changed = tt; others = λ c _. refl })
  alter_columns_ok (col ∷ cols) t (apart, d) (own, rest) =
      let next = with_cells col (new col) t in
      let (t', done, altered) = alter_columns_ok cols next d (still_taken col cols t apart rest) in
      (
        t',
        rw (alter_columns, alter_column_ok col t own) done,
        record {
          changed = (
            altered.others col (apart_from col cols apart) ∙ rw (str_eq_refl col) refl,
            altered.changed,
          );
          others = λ c (a, ds). altered.others c ds ∙ with_cells_other col c (new col) t a;
        },
      )

module _ (pg : Postgres) (nonces : String → ℕ → ℕ) where
  -- vault.encrypt_pii on each cell, each time with a nonce of its own.
  unfoldable pub encrypt_cells : String → ℕ → List (Option String) → List (Option Bytes)
  unfolding encrypt_pii
  encrypt_cells col n [] = []
  encrypt_cells col n (x ∷ xs) = encrypt_pii pg (nonces col n) x ∷ encrypt_cells col (suc n) xs

  unfoldable pub decrypt_cells : List (Option Bytes) → List (Option String)
  unfolding decrypt_pii
  decrypt_cells xs = map (decrypt_pii pg) xs

  -- ALTER COLUMN ... TYPE bytea USING vault.encrypt_pii(...), refused on a column that is no text.
  unfoldable pub encrypt_as : String → Cells → Option Cells
  unfolding encrypt_cells
  encrypt_as col (text xs) = some (bytea (encrypt_cells col 0 xs))
  encrypt_as col (bytea _) = none

  -- ALTER COLUMN ... TYPE text USING vault.decrypt_pii(...)
  unfoldable pub decrypt_as : String → Cells → Option Cells
  unfolding decrypt_cells
  decrypt_as col (text _) = none
  decrypt_as col (bytea xs) = some (text (decrypt_cells xs))

  decrypt_cells-encrypt_cells :
      (col : String) (n : ℕ) (xs : List (Option String))
      → decrypt_cells (encrypt_cells col n xs) ≡ xs
  unfolding decrypt_cells encrypt_cells
  decrypt_cells-encrypt_cells col n [] = refl
  decrypt_cells-encrypt_cells col n (x ∷ xs) =
      rw (decrypt_pii-encrypt_pii pg (nonces col n) x, decrypt_cells-encrypt_cells col (suc n) xs)
        refl

-- What holds of some columns, and of a column apart from them, holds of every column.
every_column :
    (Q : String → Type 0) (cols : List String) (c : String)
    → All Q cols
    → (All (λ k. str_eq k c ≡ false) cols → Q c)
    → Q c
every_column Q [] c h other = other tt
every_column Q (k ∷ ks) c (h, hs) other = elim (Bool-cases (str_eq k c)) [
  | inl same ↦ subst Q ((str_eq_iff k c).0 same) h
  | inr apart ↦ every_column Q ks c hs (λ qs. other (apart, qs))
]

pii-AreDistinct : AreDistinct pii
unfolding pii
pii-AreDistinct = ground arith

module _ (pg : Postgres) (nonces : String → ℕ → ℕ) (cells : String → List (Option String)) where
  abbrev plain : String → Cells
  plain c = text (cells c)

  abbrev pub encrypted : String → Cells
  encrypted c = bytea (encrypt_cells pg nonces c 0 (cells c))

  encrypt_as_lem : (c : String) → encrypt_as pg nonces c (plain c) ≡ some (encrypted c)
  unfolding encrypt_as
  encrypt_as_lem c = refl

  decrypt_as_lem : (c : String) → decrypt_as pg nonces c (encrypted c) ≡ some (plain c)
  unfolding decrypt_as
  decrypt_as_lem c = rw (decrypt_cells-encrypt_cells pg nonces c 0 (cells c)) refl

  taken_by :
      (change : String → Cells → Option Cells) (old new : String → Cells) (t : Columns)
      (cols : List String)
      → ((c : String) → change c (old c) ≡ some (new c))
      → All (λ c. t c ≡ some (old c)) cols
      → All (Takes change old new t) cols
  taken_by change old new t [] f h = tt
  taken_by change old new t (c ∷ cols) f (h, hs) = ((h, f c), taken_by change old new t cols f hs)

  restored :
      (t t' t'' : Columns) (cols : List String)
      → All (λ c. t c ≡ some (plain c)) cols
      → All (λ c. t'' c ≡ some (plain c)) cols
      → All (λ c. t'' c ≡ t c) cols
  restored t t' t'' [] a b = tt
  restored t t' t'' (c ∷ cols) (a, hs) (b, gs) = (b ∙ sym a, restored t t' t'' cols hs gs)

  -- Where every column with personal data is a text column, the upgrade goes through and leaves
  -- each of them encrypted, and the downgrade from there goes through and gives every column of the
  -- table its cells again.
  pub decrypt_as-encrypt_as :
      (t : Columns)
      → All (λ c. t c ≡ some (text (cells c))) pii
      → (t' : Columns) × (t'' : Columns) × (alter_columns (encrypt_as pg nonces) pii t ≡ some t')
        × All (λ c. t' c ≡ some (encrypted c)) pii
        × (alter_columns (decrypt_as pg nonces) pii t' ≡ some t'')
        × ((c : String) → t'' c ≡ t c)
  decrypt_as-encrypt_as t h =
      let (t', up, there) =
        alter_columns_ok (encrypt_as pg nonces) plain encrypted pii t pii-AreDistinct
          (taken_by (encrypt_as pg nonces) plain encrypted t pii encrypt_as_lem h) in
      let (t'', down, again) =
        alter_columns_ok (decrypt_as pg nonces) encrypted plain pii t' pii-AreDistinct
          (taken_by (decrypt_as pg nonces) encrypted plain t' pii decrypt_as_lem there.changed) in
      (
        t',
        t'',
        up,
        there.changed,
        down,
        λ c.
            every_column (λ k. t'' k ≡ t k) pii c (restored t t' t'' pii h again.changed)
              (λ apart. again.others c apart ∙ there.others c apart),
      )
