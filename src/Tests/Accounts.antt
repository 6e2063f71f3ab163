-- ===== src/Tests/Accounts.antt =====
-- Witnesses for the accounts, the roles, the tokens and the portal's rights.
use sirius_vkr.Prelude.{
  ◌≡◌, refl, true, none, some, [], ◌∷◌, ◌==◌, arith, inl, inr, str_eq, not, map, ◌&&◌,
}
use sirius_vkr.Sql.{select}
use sirius_vkr.Models.Access.{RoleName, child, parent, admin, Role, User}
use sirius_vkr.Exec.{ok, err, http_exception}
use sirius_vkr.Session.{Session}
use sirius_vkr.Schemas.Auth.{RegisterRequest, self_assignable}
use sirius_vkr.Security.{verify_password, create_access_token}
use sirius_vkr.Auth.Roles.{has_role, roles_by_name, roles_of, role_names}
use sirius_vkr.Auth.Service.{
  email_taken, unknown_role, role_links, register_user, authenticate, check_credentials,
  get_user_by_email, get_user_by_id, ensure_bootstrap_admin, set_user_roles,
}
use sirius_vkr.Auth.Service.Accounts.{next_user, authenticate-register_user, authenticate_sound}
use sirius_vkr.Auth.Service.Emails.{HaveUniqueEmails, register_user-HaveUniqueEmails}
use sirius_vkr.Auth.Service.Bootstrap.{ensure_bootstrap_admin_idem}
use sirius_vkr.Auth.Service.Replacement.{set_user_roles_replaces}
use sirius_vkr.Auth.Guards.{get_current_user, require_staff}
use sirius_vkr.Auth.Guards.Tokens.{get_current_user-create_access_token, get_current_user_expired}
use sirius_vkr.Auth.Routes.{all_self_assignable}
use sirius_vkr.Auth.Routes.Granted.{role_names-register_user}
use sirius_vkr.Auth.Routes.Privileges.{register_user-require_staff}
use sirius_vkr.Learning.Subjects.{resolve_children_ids, children_rows}
use sirius_vkr.Learning.Portal.{resolve_target_student}
use sirius_vkr.Learning.Portal.Access.{
  MayView, resolve_target_student_allowed, resolve_target_student_forbidden,
}
use sirius_vkr.Tests.Instances.{packages, settings}
use sirius_vkr.Tests.Data.{pupil, mother, db, s}

-- A registration with a new email, and what it leaves.
abbrev form : RegisterRequest
form = record { email = "new@b.ru"; password = "secret12"; roles = child ∷ [] }

abbrev after : Session
after = (register_user packages "new@b.ru" "secret12" (child ∷ []) s).1

abbrev newcomer : User
newcomer = next_user packages "new@b.ru" "secret12" (child ∷ []) s

register_user-require_staff_example :
    require_staff newcomer after ≡ (err (http_exception 403), after)
unfolding all_self_assignable self_assignable unknown_role roles_by_name email_taken
register_user-require_staff_example =
    register_user-require_staff packages form s refl refl refl refl refl

role_names-register_user_example :
    let (r, s') = register_user packages "new@b.ru" "secret12" (child ∷ []) s in
    (user : User) × (r ≡ ok user)
    × (user.email ≡ "new@b.ru")
    × (user.is_active ≡ true)
    × (verify_password packages "secret12" user.password_hash ≡ true)
    × ((n : RoleName)
        → has_role n (role_names s'.committed user.id)
          ≡ (has_role n (child ∷ []) && has_role n (map (λ (r : Role). r.name) db.roles)))
unfolding unknown_role roles_by_name email_taken
role_names-register_user_example =
    role_names-register_user packages "new@b.ru" "secret12" (child ∷ []) s refl refl refl refl

authenticate-register_user_example :
    authenticate packages "new@b.ru" "secret12" after.committed ≡ some newcomer
unfolding unknown_role roles_by_name email_taken
authenticate-register_user_example =
    authenticate-register_user packages "new@b.ru" "secret12" (child ∷ []) s refl refl

authenticate_sound_example :
    (pupil.is_active ≡ true)
    × (str_eq pupil.email "a@b.ru" ≡ true)
    × (verify_password packages "password" pupil.password_hash ≡ true)
unfolding authenticate get_user_by_email check_credentials verify_password
authenticate_sound_example = authenticate_sound packages "a@b.ru" "password" db pupil refl

unique : HaveUniqueEmails db.users
unique = (refl, (refl, (refl, tt)))

register_user-HaveUniqueEmails_example : HaveUniqueEmails after.committed.users
register_user-HaveUniqueEmails_example =
    register_user-HaveUniqueEmails packages "new@b.ru" "secret12" (child ∷ []) s unique unique

ensure_bootstrap_admin_idem_example :
    let s' = (ensure_bootstrap_admin packages "root@b.ru" "secret12" s).1 in
    ensure_bootstrap_admin packages "root@b.ru" "secret12" s' ≡ (ok tt, s')
unfolding unknown_role roles_by_name
ensure_bootstrap_admin_idem_example =
    ensure_bootstrap_admin_idem packages "root@b.ru" "secret12" s refl

set_user_roles_replaces_example :
    let s' = (set_user_roles pupil (parent ∷ admin ∷ []) s).1 in
    (select (λ l. l.user_id == 10) s'.committed.user_roles
      ≡ role_links 10 (roles_by_name (parent ∷ admin ∷ []) s.pending.roles))
    × (select (λ l. not (l.user_id == 10)) s'.committed.user_roles
        ≡ select (λ l. not (l.user_id == 10)) s.pending.user_roles)
unfolding unknown_role roles_by_name
set_user_roles_replaces_example = set_user_roles_replaces pupil (parent ∷ admin ∷ []) s refl

get_current_user-create_access_token_example :
    get_current_user packages settings (create_access_token packages settings 990 10 none) s
    ≡ (ok pupil, s)
unfolding get_user_by_id
get_current_user-create_access_token_example =
    get_current_user-create_access_token packages settings s 990 pupil refl refl (omega arith)
      (omega arith)

get_current_user_expired_example :
    get_current_user packages settings (create_access_token packages settings 900 10 none) s
    ≡ (err (http_exception 401), s)
get_current_user_expired_example = get_current_user_expired packages settings s 900 10 (omega arith)

resolve_target_student_allowed_example : MayView db 11 21
unfolding resolve_target_student role_names roles_of resolve_children_ids children_rows
resolve_target_student_allowed_example = resolve_target_student_allowed mother (some 21) s 21 refl

not_viewed : ¬ MayView db 11 20
unfolding role_names roles_of resolve_children_ids children_rows
not_viewed (inl (is_child, own)) = absurd (cc is_child)
not_viewed (inr (is_parent, listed)) = absurd (cc listed)

resolve_target_student_forbidden_example :
    resolve_target_student mother (some 20) s ≡ (err (http_exception 403), s)
unfolding role_names roles_of
resolve_target_student_forbidden_example =
    resolve_target_student_forbidden mother 20 s refl not_viewed
