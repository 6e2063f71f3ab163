-- ===== src/Auth/Guards.antt =====
-- api/deps.py: the account behind a bearer token, and the role guards.
pub mod Tokens
use sirius_vkr.Prelude.{
  ℕ, Bool, true, false, not, ◌||◌, String, Option, none, some, List, [], ◌∷◌, if◌then◌else◌,
}
use sirius_vkr.Models.Access.{RoleName, child, parent, teacher, admin, User}
use sirius_vkr.Database.{Db}
use sirius_vkr.Exec.{Exec, http_exception, pure, raise, raise_if, or_raise, ◌>>=◌, ◌>>◌}
use sirius_vkr.Session.{Session, query, now}
use sirius_vkr.Config.{Settings}
use sirius_vkr.Security.{Packages, Claims, decode_access_token}
use sirius_vkr.Auth.Roles.{has_role, role_names}
use sirius_vkr.Auth.Service.{get_user_by_id}

module _ (packages : Packages) where
  -- The `try` block: `none` stands for each way into `_credentials_exc`.
  unfoldable pub token_subject : Option Claims → Option ℕ
  token_subject none = none
  token_subject (some claims) = elim claims.sub [ none ↦ none | some s ↦ packages.uuid_parse s ]

  -- `user is None or not user.is_active`
  unfoldable pub active_user : Option User → Option User
  active_user none = none
  active_user (some user) = if user.is_active then some user else none

  unfoldable pub get_current_user : Settings → String → Exec Session User
  unfolding decode_access_token token_subject get_user_by_id active_user
  get_current_user settings token = do
    at ← now
    k ←
        or_raise (token_subject (decode_access_token packages settings at token))
          (http_exception 401)
    user ← query (get_user_by_id k)
    or_raise (active_user user) (http_exception 401)

-- `not allowed.isdisjoint(names)`
unfoldable pub intersects : List RoleName → List RoleName → Bool
intersects allowed [] = false
intersects allowed (n ∷ ns) = has_role n allowed || intersects allowed ns

-- `_guard` of require_roles
unfoldable pub require_roles : List RoleName → User → Exec Session User
unfolding intersects role_names
require_roles allowed user = do
  names ← query (λ db. role_names db user.id)
  raise_if (not (intersects allowed names)) (http_exception 403)
  pure user

abbrev pub require_admin : User → Exec Session User
require_admin = require_roles (admin ∷ [])

abbrev pub require_staff : User → Exec Session User
require_staff = require_roles (teacher ∷ admin ∷ [])

abbrev pub require_portal : User → Exec Session User
require_portal = require_roles (child ∷ parent ∷ [])
