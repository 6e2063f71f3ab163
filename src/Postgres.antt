-- ===== src/Postgres.antt =====
-- What the services use of PostgreSQL beyond plain rows: pgcrypto under the two functions of the
-- migration 20260613_a1b2c3d4e5f6, and the order of text under the database's collation.
use Prim.Native.Char.{code}
use Prim.Native.String.{[], ◌∷◌, ◌++◌}
use sirius_vkr.Prelude.{
  ℕ, Bool, ◌&&◌, String, Option, none, some, ◌≡◌, refl, ◌==◌, str_eq, if◌then◌else◌,
}
use sirius_vkr.Models.People.{Bytes, Student, Guardian}

-- `key` is the row 'pii' of vault.encryption_keys. Encryption takes a nonce, since pgcrypto's is
-- randomised; decryption under the same key undoes it. `text_le` compares texts in ORDER BY.
pub record Postgres : Type 0 where
  pub key : String
  pub sym_encrypt : ℕ → String → String → Bytes
  pub sym_decrypt : Bytes → String → String
  pub text_le : String → String → Bool
  pub decrypt_encrypt : (n : ℕ) (t k : String) → sym_decrypt (sym_encrypt n t k) k ≡ t

-- The leading spaces taken off.
unfoldable pub ltrim : String → String
ltrim [] = []
ltrim (c ∷ s) = if code c == 32 then ltrim s else c ∷ s

-- The trailing spaces taken off.
unfoldable pub rtrim : String → String
rtrim [] = []
rtrim (c ∷ s) = let rest = rtrim s in if code c == 32 && str_eq rest "" then [] else c ∷ rest

-- trim of SQL
unfoldable pub trim : String → String
unfolding ltrim rtrim
trim s = rtrim (ltrim s)

-- `name or "—"`
unfoldable pub or_dash : Option String → String
or_dash none = "—"
or_dash (some s) = if str_eq s "" then "—" else s

module _ (pg : Postgres) where
  -- vault.encrypt_pii, with the nonce that pgcrypto draws
  unfoldable pub encrypt_pii : ℕ → Option String → Option Bytes
  encrypt_pii nonce none = none
  encrypt_pii nonce (some t) = some (pg.sym_encrypt nonce t pg.key)

  -- vault.decrypt_pii
  unfoldable pub decrypt_pii : Option Bytes → Option String
  decrypt_pii none = none
  decrypt_pii (some b) = some (pg.sym_decrypt b pg.key)

  -- `coalesce(' ' || vault.decrypt_pii(t.middle_name), '')`
  unfoldable pub middle_part : Option Bytes → String
  middle_part none = ""
  middle_part (some b) = " " ++ pg.sym_decrypt b pg.key

  -- `_NAME_EXPR`; the last and first name are NOT NULL columns.
  unfoldable pub name_expr : Bytes → Bytes → Option Bytes → String
  unfolding trim middle_part
  name_expr last first middle =
      trim (pg.sym_decrypt last pg.key ++ " " ++ pg.sym_decrypt first pg.key ++ middle_part middle)

  unfoldable pub student_name : Student → String
  unfolding name_expr
  student_name t = name_expr t.last_name t.first_name t.middle_name

  unfoldable pub guardian_name : Guardian → String
  unfolding name_expr
  guardian_name t = name_expr t.last_name t.first_name t.middle_name

  -- What encrypt_pii stores, decrypt_pii reads back, NULL for NULL.
  pub decrypt_pii-encrypt_pii :
      (nonce : ℕ) (t : Option String) → decrypt_pii (encrypt_pii nonce t) ≡ t
  unfolding decrypt_pii encrypt_pii
  decrypt_pii-encrypt_pii nonce none = refl
  decrypt_pii-encrypt_pii nonce (some t) = λ i. some (pg.decrypt_encrypt nonce t pg.key i)
