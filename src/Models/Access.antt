-- ===== src/Models/Access.antt =====
-- models/user.py: the login accounts and their roles. The role names are those of
-- schemas/auth.py, to which the CHECK constraint on core.roles holds the column.
use sirius_vkr.Prelude.{ℕ, Bool, true, false, String}

-- `RoleName` of schemas/auth.py
pub data RoleName : Type 0 where
  child parent teacher admin : RoleName

-- Equality of role names.
abbrev pub same_role : RoleName → RoleName → Bool
same_role child child = true
same_role parent parent = true
same_role teacher teacher = true
same_role admin admin = true
same_role _ _ = false

-- core.roles
pub record Role : Type 0 where
  pub id : ℕ
  pub name : RoleName

-- core.users
pub record User : Type 0 where
  pub id : ℕ
  pub email : String
  pub password_hash : String
  pub is_active : Bool
  pub created_at : ℕ
  pub updated_at : ℕ

-- core.user_roles
pub record UserRole : Type 0 where
  pub user_id : ℕ
  pub role_id : ℕ
