-- ===== src/Auth/Service.antt =====
-- services/auth_service.py.
pub mod Accounts
pub mod Bootstrap
pub mod Emails
pub mod Replacement
use sirius_vkr.Prelude.{
  ℕ, Bool, true, false, not, ◌||◌, String, Option, none, some, List, [], ◌∷◌, ◌++◌, map, length,
  ◌==◌, str_eq, if◌then◌else◌,
}
use sirius_vkr.Sql.{exists, first, delete_where}
use sirius_vkr.Models.Access.{RoleName, admin, Role, User, UserRole}
use sirius_vkr.Database.{Db}
use sirius_vkr.Exec.{
  Exec, Error, auth_error, integrity_error, pure, raise, raise_if, try_catch, ◌>>=◌, ◌>>◌,
}
use sirius_vkr.Session.{Session, commit, rollback, query, execute, execute_checked, uuid4, now}
use sirius_vkr.Security.{Packages, hash_password, verify_password}
use sirius_vkr.Schemas.Auth.{UserResponse}
use sirius_vkr.Auth.Roles.{count_roles, sort_roles, roles_by_name, role_names}

unfoldable pub to_user_response : Db → User → UserResponse
unfolding sort_roles role_names
to_user_response db user = record {
  id = user.id;
  email = user.email;
  is_active = user.is_active;
  roles = sort_roles (role_names db user.id);
  created_at = user.created_at;
}

unfoldable pub get_user_by_email : String → Db → Option User
get_user_by_email email db = first (λ u. str_eq u.email email) db.users

unfoldable pub get_user_by_id : ℕ → Db → Option User
get_user_by_id k db = first (λ u. u.id == k) db.users

-- `len(role_objs) != len(set(roles))`
unfoldable pub unknown_role : List RoleName → Db → Bool
unfolding roles_by_name
unknown_role roles db = not (length (roles_by_name roles db.roles) == count_roles roles)

-- The rows `UserRole(user_id=user.id, role_id=role.id) for role in role_objs`.
abbrev pub role_links : ℕ → List Role → List UserRole
role_links k [] = []
role_links k (r ∷ rs) = record { user_id = k; role_id = r.id } ∷ role_links k rs

-- The links of an account that has none yet to rows of core.roles, of which each has its own id:
-- no constraint of core.user_roles can forbid them.
unfoldable pub add_roles : ℕ → List RoleName → Db → Db
unfolding roles_by_name
add_roles k roles db = record db {
  user_roles = db.user_roles ++ role_links k (roles_by_name roles db.roles);
}

-- `uq_users_email`
unfoldable pub email_taken : String → Db → Bool
email_taken email db = exists (λ u. str_eq u.email email) db.users

-- `except IntegrityError`: roll back and raise AuthError; any other exception goes on.
unfoldable pub on_taken : Error → Exec Session (Unit {0})
on_taken integrity_error = rollback >> raise (auth_error "Email already registered")
on_taken e = raise e

module _ (packages : Packages) where
  -- `User(email=email, password_hash=hash_password(password))` with the column defaults.
  unfoldable pub new_user : ℕ → ℕ → String → String → User
  unfolding hash_password
  new_user k at email password = record {
    id = k;
    email = email;
    password_hash = hash_password packages k password;
    is_active = true;
    created_at = at;
    updated_at = at;
  }

  -- The id serves as the salt too: both are drawn at random.
  unfoldable pub register_user : String → String → List RoleName → Exec Session User
  unfolding unknown_role new_user email_taken on_taken add_roles
  register_user email password roles = do
    unknown ← query (unknown_role roles)
    raise_if unknown (auth_error "Unknown role requested")
    k ← uuid4
    at ← now
    try_catch
        (execute_checked (email_taken email)
          (λ db. record db { users = db.users ++ new_user k at email password ∷ [] }))
        on_taken
    execute (add_roles k roles)
    commit
    pure (new_user k at email password)

  -- The tests of authenticate on the account that was found.
  unfoldable pub check_credentials : String → Option User → Option User
  unfolding verify_password
  check_credentials password none = none
  check_credentials password (some user) =
      if not user.is_active
      then none
      else if not (verify_password packages password user.password_hash)
      then none
      else some user

  unfoldable pub authenticate : String → String → Db → Option User
  unfolding get_user_by_email check_credentials
  authenticate email password db = check_credentials password (get_user_by_email email db)

  -- The case of ensure_bootstrap_admin on the account that was found.
  unfoldable pub bootstrap : String → String → Option User → Exec Session (Unit {0})
  unfolding register_user
  bootstrap email password none = do register_user email password (admin ∷ []); pure tt
  bootstrap email password (some _) = pure tt

  unfoldable pub ensure_bootstrap_admin : String → String → Exec Session (Unit {0})
  unfolding bootstrap get_user_by_email
  ensure_bootstrap_admin email password = do
    existing ← query (get_user_by_email email)
    bootstrap email password existing

unfoldable pub set_user_roles : User → List RoleName → Exec Session User
unfolding unknown_role add_roles
set_user_roles user roles = do
  unknown ← query (unknown_role roles)
  raise_if unknown (auth_error "Unknown role requested")
  execute (λ db. record db { user_roles = delete_where (λ l. l.user_id == user.id) db.user_roles })
  execute (add_roles user.id roles)
  commit
  pure user
