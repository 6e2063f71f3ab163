-- ===== src/Auth/Service/Bootstrap.antt =====
-- The admin account that a start makes: ensure_bootstrap_admin of services/auth_service.py.
use mathlib.Core.Path.{subst}
use sirius_vkr.Prelude.{
  ◌≡◌, refl, sym, ap, ◌∙◌, false, String, none, some, [], ◌∷◌, str_eq, inl, inr, Option-cases,
  is_some,
}
use sirius_vkr.Sql.{first}
use sirius_vkr.Sql.Laws.{first-append_none, is_some-first}
use sirius_vkr.Models.Access.{admin, User}
use sirius_vkr.Database.{Db}
use sirius_vkr.Exec.{ok, pure}
use sirius_vkr.Exec.Laws.{bind_cases}
use sirius_vkr.Session.{Session}
use sirius_vkr.Security.{Packages}
use sirius_vkr.Auth.Service.{
  get_user_by_email, unknown_role, email_taken, register_user, bootstrap, ensure_bootstrap_admin,
}
use sirius_vkr.Auth.Service.Accounts.{next_user, next_user-email, register_user_ok}

pub bootstrap_found :
    (packages : Packages) (email password : String) (u : User) (s : Session)
    → get_user_by_email email s.pending ≡ some u
    → ensure_bootstrap_admin packages email password s ≡ (ok tt, s)
unfolding ensure_bootstrap_admin bootstrap
bootstrap_found packages email password u s h = rw h refl

bootstrap_new :
    (packages : Packages) (email password : String) (s : Session)
    → get_user_by_email email s.pending ≡ none
    → (ensure_bootstrap_admin packages email password s).1
      ≡ (register_user packages email password (admin ∷ []) s).1
unfolding ensure_bootstrap_admin bootstrap
bootstrap_new packages email password s h =
    rw h
      (elim (bind_cases (register_user packages email password (admin ∷ [])) (λ (u : User). pure tt)
        s) [
          | inl (e, raised, whole) ↦ ap (λ t. t.1) whole
          | inr (u, returned, whole) ↦ ap (λ t. t.1) whole
        ])

pub email_taken-none :
    (email : String) (db : Db) → get_user_by_email email db ≡ none → email_taken email db ≡ false
unfolding get_user_by_email email_taken
email_taken-none email db h =
    sym (is_some-first (λ u. str_eq u.email email) db.users) ∙ ap is_some h

get_user_by_email-register_user :
    (packages : Packages) (email password : String) (s : Session)
    → unknown_role (admin ∷ []) s.pending ≡ false
    → email_taken email s.pending ≡ false
    → get_user_by_email email (register_user packages email password (admin ∷ []) s).1.pending
      ≡ some (next_user packages email password (admin ∷ []) s)
unfolding get_user_by_email email_taken
get_user_by_email-register_user packages email password s known free =
    let is_email = λ (u : User). str_eq u.email email in
    let u = next_user packages email password (admin ∷ []) s in
    let done = register_user_ok packages email password (admin ∷ []) s known free in
    let found : first is_email (u ∷ []) ≡ some u =
      rw (next_user-email packages email password (admin ∷ []) s) refl in
    ap (λ (db : Db). first is_email db.users) done.3
    ∙ ap (first is_email) done.1
    ∙ first-append_none is_email s.pending.users (u ∷ []) free
    ∙ found

-- Where the admin role exists, a second ensure_bootstrap_admin returns and changes nothing.
pub ensure_bootstrap_admin_idem :
    (packages : Packages) (email password : String) (s : Session)
    → unknown_role (admin ∷ []) s.pending ≡ false
    → let s' = (ensure_bootstrap_admin packages email password s).1 in
      ensure_bootstrap_admin packages email password s' ≡ (ok tt, s')
ensure_bootstrap_admin_idem packages email password s known =
    let run = ensure_bootstrap_admin packages email password in
    elim (Option-cases (get_user_by_email email s.pending)) [
      | inl absent ↦
          let new_state = bootstrap_new packages email password s absent in
          bootstrap_found packages email password (next_user packages email password (admin ∷ []) s)
            (run s).1
            (ap (λ (t : Session). get_user_by_email email t.pending) new_state
              ∙ get_user_by_email-register_user packages email password s known
                  (email_taken-none email s.pending absent))
      | inr (u, present) ↦
          let same : (run s).1 ≡ s =
            ap (λ t. t.1) (bootstrap_found packages email password u s present) in
          subst (λ (t : Session). run t ≡ (ok tt, t)) (sym same)
            (bootstrap_found packages email password u s present)
    ]
