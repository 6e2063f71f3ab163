-- ===== src/Auth/Guards/Tokens.antt =====
-- From an access token to the account behind it: create_access_token and get_current_user.
use sirius_vkr.Prelude.{ℕ, ◌+◌, ◌*◌, ◌≤◌, ◌<◌, ◌≡◌, refl, ap, ◌∙◌, true, String, none, some}
use sirius_vkr.Models.Access.{User}
use sirius_vkr.Exec.{ok, err, http_exception}
use sirius_vkr.Session.{Session}
use sirius_vkr.Config.{Settings}
use sirius_vkr.Security.{Packages, token_claims, create_access_token, decode_access_token}
use sirius_vkr.Auth.Service.{get_user_by_id}
use sirius_vkr.Auth.Guards.{token_subject, active_user, get_current_user}

module _ (packages : Packages) (settings : Settings) (s : Session) where
  -- The answer to a token is the active account of its subject, or 401.
  current_user_of :
      (token : String) (k : ℕ) (user : User)
      → token_subject packages (decode_access_token packages settings s.clock token) ≡ some k
      → get_user_by_id k s.pending ≡ some user
      → user.is_active ≡ true
      → get_current_user packages settings token s ≡ (ok user, s)
  unfolding get_current_user
  current_user_of token k user subject found active =
      rw (subject, found) (unfold active_user in rw active refl)

  -- From the instant of its issue until it expires, a token names its account while that is there
  -- and active.
  pub get_current_user-create_access_token :
      (at : ℕ) (user : User)
      → get_user_by_id user.id s.pending ≡ some user
      → user.is_active ≡ true
      → at ≤ s.clock
      → s.clock < at + settings.access_token_expire_minutes * 60
      → get_current_user packages settings (create_access_token packages settings at user.id none) s
        ≡ (ok user, s)
  unfolding create_access_token decode_access_token token_subject
  get_current_user-create_access_token at user found active issued unexpired =
      let claims = token_claims packages settings at user.id none in
      let decoded =
        packages.decode_encode s.clock claims settings.secret_key settings.jwt_algorithm issued
          unexpired in
      current_user_of (create_access_token packages settings at user.id none) user.id user
        (ap (token_subject packages) decoded ∙ packages.parse_str user.id) found active

  -- From the instant of its expiry on a token is answered with 401.
  pub get_current_user_expired :
      (at k : ℕ)
      → at + settings.access_token_expire_minutes * 60 ≤ s.clock
      → get_current_user packages settings (create_access_token packages settings at k none) s
        ≡ (err (http_exception 401), s)
  unfolding get_current_user create_access_token decode_access_token token_subject
  get_current_user_expired at k expired =
      rw
        (packages.decode_expired s.clock (token_claims packages settings at k none)
          settings.secret_key settings.jwt_algorithm expired)
        refl
