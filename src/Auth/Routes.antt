-- ===== src/Auth/Routes.antt =====
-- The handlers of api/v1/auth.py and api/v1/users.py. The dependencies of a route are run before
-- its handler, as FastAPI does.
pub mod Privileges
pub mod Granted
use sirius_vkr.Prelude.{
  ℕ, Bool, true, not, ◌&&◌, String, Option, none, some, List, [], ◌∷◌, map, leb, if◌then◌else◌,
}
use sirius_vkr.Sql.{order_by}
use sirius_vkr.Models.Access.{RoleName, User}
use sirius_vkr.Database.{Db}
use sirius_vkr.Exec.{
  Exec, Error, auth_error, http_exception, pure, raise, raise_if, or_raise, try_catch, ◌>>=◌, ◌>>◌,
}
use sirius_vkr.Session.{Session, query, now}
use sirius_vkr.Config.{Settings}
use sirius_vkr.Security.{Packages, create_access_token}
use sirius_vkr.Schemas.Auth.{
  RegisterRequest, UserResponse, Token, AssignRolesRequest, self_assignable,
}
use sirius_vkr.Auth.Guards.{get_current_user}
use sirius_vkr.Auth.Service.{
  to_user_response, get_user_by_id, register_user, authenticate, set_user_roles,
}

-- `except AuthError`: the status code of the answer; any other exception goes on.
unfoldable pub on_auth_error : {A : Type 0} → ℕ → Error → Exec Session A
on_auth_error status (auth_error _) = raise (http_exception status)
on_auth_error status e = raise e

-- `set(roles).issubset(SELF_ASSIGNABLE_ROLES)`
unfoldable pub all_self_assignable : List RoleName → Bool
unfolding self_assignable
all_self_assignable [] = true
all_self_assignable (r ∷ rs) = self_assignable r && all_self_assignable rs

module _ (packages : Packages) where
  unfoldable pub register : RegisterRequest → Exec Session UserResponse
  unfolding all_self_assignable register_user on_auth_error to_user_response
  register body = do
    raise_if (not (all_self_assignable body.roles)) (http_exception 403)
    user ←
        try_catch (register_user packages body.email body.password body.roles) (on_auth_error 409)
    query (λ db. to_user_response db user)

  unfoldable pub login : Settings → String → String → Exec Session Token
  unfolding authenticate create_access_token
  login settings username password = do
    found ← query (authenticate packages username password)
    user ← or_raise found (http_exception 401)
    at ← now
    pure (record {
      access_token = create_access_token packages settings at user.id none;
      token_type = "bearer";
    })

  unfoldable pub read_me : Settings → String → Exec Session UserResponse
  unfolding get_current_user to_user_response
  read_me settings token = do
    current_user ← get_current_user packages settings token
    query (λ db. to_user_response db current_user)

-- ORDER BY created_at
unfoldable pub list_users : Db → List UserResponse
unfolding to_user_response
list_users db = map (to_user_response db) (order_by (λ a b. leb a.created_at b.created_at) db.users)

unfoldable pub assign_roles : ℕ → AssignRolesRequest → Exec Session UserResponse
unfolding get_user_by_id set_user_roles on_auth_error to_user_response
assign_roles k body = do
  found ← query (get_user_by_id k)
  user ← or_raise found (http_exception 404)
  user' ← try_catch (set_user_roles user body.roles) (on_auth_error 400)
  query (λ db. to_user_response db user')
