-- ===== src/Auth/Service/Accounts.antt =====
-- Registration and login: services/auth_service.py.
use mathlib.Core.Path.{subst}
use sirius_vkr.Prelude.{
  ◌≡◌, refl, ap, ◌∙◌, true, false, String, Option, none, some, List, [], ◌∷◌, ◌++◌, arith, str_eq,
  str_eq_refl,
}
use sirius_vkr.Sql.{first}
use sirius_vkr.Sql.Laws.{first-append_none, first-test}
use sirius_vkr.Models.Access.{RoleName, User}
use sirius_vkr.Database.{Db}
use sirius_vkr.Exec.{ok, err, auth_error}
use sirius_vkr.Session.{Session}
use sirius_vkr.Security.{Packages, verify_password, hash_password}
use sirius_vkr.Auth.Roles.{roles_by_name}
use sirius_vkr.Auth.Service.{
  get_user_by_email, unknown_role, role_links, add_roles, email_taken, new_user, register_user,
  check_credentials, authenticate,
}

module _ (packages : Packages) (email password : String) (roles : List RoleName) (s : Session) where
  -- The account that the next registration makes.
  abbrev pub next_user : User
  next_user = new_user packages (s.fresh s.drawn) s.clock email password

  -- With a name that core.roles lacks: the error, and the session as it was.
  pub register_user_unknown :
      unknown_role roles s.pending ≡ true
      → register_user packages email password roles s
        ≡ (err (auth_error "Unknown role requested"), s)
  unfolding register_user
  register_user_unknown h = rw h refl

  -- Where the roles exist and the email is taken, register_user raises "Email already registered"
  -- and the tables are as last committed.
  pub register_user_taken :
      unknown_role roles s.pending ≡ false
      → email_taken email s.pending ≡ true
      → ((register_user packages email password roles s).0
          ≡ err (auth_error "Email already registered"))
        × ((register_user packages email password roles s).1.committed ≡ s.committed)
        × ((register_user packages email password roles s).1.pending ≡ s.committed)
  unfolding register_user
  register_user_taken known taken = ground arith

  -- Where the roles exist and the email is free, register_user returns the new account, commits it
  -- behind the others and its links behind the links, and leaves the roles as they were.
  pub register_user_ok :
      unknown_role roles s.pending ≡ false
      → email_taken email s.pending ≡ false
      → let (r, s') = register_user packages email password roles s in
        (r ≡ ok next_user)
        × (s'.committed.users ≡ s.pending.users ++ next_user ∷ [])
        × (s'.committed.user_roles
            ≡ s.pending.user_roles
              ++ role_links (s.fresh s.drawn) (roles_by_name roles s.pending.roles))
        × (s'.pending ≡ s'.committed)
        × (s'.committed.roles ≡ s.pending.roles)
  unfolding register_user add_roles
  register_user_ok known free = ground arith

  check_credentials-next_user :
      check_credentials packages password (some next_user) ≡ some next_user
  unfolding check_credentials new_user hash_password
  check_credentials-next_user = rw (packages.verify_hash (s.fresh s.drawn) password) refl

  pub next_user-email : str_eq next_user.email email ≡ true
  unfolding new_user
  next_user-email = str_eq_refl email

  -- Where the roles exist and the email is free, the email and the password of a registration
  -- authenticate the new account in the database that it commits.
  pub authenticate-register_user :
      unknown_role roles s.pending ≡ false
      → email_taken email s.pending ≡ false
      → authenticate packages email password
          (register_user packages email password roles s).1.committed
        ≡ some next_user
  unfolding authenticate get_user_by_email email_taken
  authenticate-register_user known free =
      let is_email = λ (u : User). str_eq u.email email in
      let found : first is_email (next_user ∷ []) ≡ some next_user = rw next_user-email refl in
      ap (λ (us : List User). check_credentials packages password (first is_email us))
        (register_user_ok known free).1
      ∙ ap (check_credentials packages password)
          (first-append_none is_email s.pending.users (next_user ∷ []) free ∙ found)
      ∙ check_credentials-next_user

no_account :
    (packages : Packages) (password : String) (user : User)
    → ¬ (check_credentials packages password none ≡ some user)
unfolding check_credentials
no_account packages password user h = cc

checked_account :
    (packages : Packages) (password : String) (u user : User)
    → check_credentials packages password (some u) ≡ some user
    → (u ≡ user) × (u.is_active ≡ true) × (verify_password packages password u.password_hash ≡ true)
unfolding check_credentials
checked_account packages password u user h = ground arith

-- An account that authenticates is active, has the email, and its hash accepts the password.
pub authenticate_sound :
    (packages : Packages) (email password : String) (db : Db) (user : User)
    → authenticate packages email password db ≡ some user
    → (user.is_active ≡ true)
      × (str_eq user.email email ≡ true)
      × (verify_password packages password user.password_hash ≡ true)
unfolding authenticate get_user_by_email
authenticate_sound packages email password db user h =
    by_account (first (λ u. str_eq u.email email) db.users) refl h
  where
    by_account :
        (o : Option User)
        → first (λ u. str_eq u.email email) db.users ≡ o
        → check_credentials packages password o ≡ some user
        → (user.is_active ≡ true)
          × (str_eq user.email email ≡ true)
          × (verify_password packages password user.password_hash ≡ true)
    by_account none e c = absurd (no_account packages password user c)
    by_account (some u) e c =
        let (same, active, verified) = checked_account packages password u user c in
        subst
          (λ (v : User).
            (v.is_active ≡ true)
            × (str_eq v.email email ≡ true)
            × (verify_password packages password v.password_hash ≡ true))
          same (active, first-test (λ v. str_eq v.email email) db.users u e, verified)
