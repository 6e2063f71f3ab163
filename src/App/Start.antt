-- ===== src/App/Start.antt =====
-- A start of the API, and a start after it: lifespan of main.py.
use mathlib.Core.Path.{subst}
use sirius_vkr.Prelude.{
  ◌≡◌, refl, sym, ap, ◌∙◌, true, false, String, Option, none, some, [], ◌∷◌, is_some, Option-cases,
  inl, inr,
}
use sirius_vkr.Models.Access.{admin, User}
use sirius_vkr.Database.{Db}
use sirius_vkr.Exec.{Exec, Result, ok, err, connection_error, pure}
use sirius_vkr.Exec.Laws.{bind_cases}
use sirius_vkr.Security.{Packages}
use sirius_vkr.Session.{Session}
use sirius_vkr.Auth.Service.{
  get_user_by_email, unknown_role, register_user, bootstrap, ensure_bootstrap_admin,
}
use sirius_vkr.Auth.Service.Accounts.{register_user_ok}
use sirius_vkr.Auth.Service.Bootstrap.{email_taken-none}
use sirius_vkr.Seed.State.{Seeder}
use sirius_vkr.Seed.Accounts.{registered-HasAccount, registered-Grows, register_user_pending}
use sirius_vkr.Seed.Growth.{Grows, Grows-refl}
use sirius_vkr.App.{Process, suppress, run_session, with_session}

-- The tables that other sessions see.
abbrev pub tables : Process → Db
tables p = p.seeder.session.committed

-- The seeder of a fresh session.
abbrev pub opened : Process → Seeder
opened p = record p.seeder {
  session = record p.seeder.session { pending = p.seeder.session.committed };
}

-- The account that the settings ask for is there.
abbrev pub HasAdmin : Option (String × String) → Db → Type 0
HasAdmin none db = Unit
HasAdmin (some (email, password)) db = is_some (get_user_by_email email db) ≡ true

pub with_session_up :
    {A : Type 0} (m : Exec Seeder A) (p : Process)
    → p.postgres_answers ≡ true
    → with_session m p ≡ run_session m p
with_session_up m p up = rw up refl

pub with_session_down :
    {A : Type 0} (m : Exec Seeder A) (p : Process)
    → p.postgres_answers ≡ false
    → with_session m p ≡ (err connection_error, p)
with_session_down m p down = rw down refl

pub suppress_ok : {S : Type 0} (m : Exec S (Unit {0})) (s : S) → suppress m s ≡ (ok tt, (m s).1)
suppress_ok m s = by_outcome (m s).0 (m s).1
  where
    by_outcome :
        {S : Type 0} (r : Result (Unit {0})) (s' : S)
        → ◌≡◌ {A = Result (Unit {0}) × S}
            (elim r [ ok a ↦ (ok a, s') | err e ↦ (ok tt, s') ])
            (ok tt, s')
    by_outcome (ok tt) s' = refl
    by_outcome (err e) s' = refl

-- What a step leaves of the tables: nothing is lost and the roles stay.
pub record Keeps (db db' : Db) : Type 0 where
  pub grows : Grows db db'
  pub roles : db'.roles ≡ db.roles

module _ (packages : Packages) (email password : String) (s : Session) where
  -- Where the admin role exists, ensure_bootstrap_admin returns with the account committed.
  pub bootstrap_post :
      unknown_role (admin ∷ []) s.pending ≡ false
      → s.committed ≡ s.pending
      → let (r, s') = ensure_bootstrap_admin packages email password s in
        (r ≡ ok tt)
        × (is_some (get_user_by_email email s'.committed) ≡ true)
        × Keeps s.pending s'.committed
  unfolding ensure_bootstrap_admin bootstrap
  bootstrap_post known same = elim (Option-cases (get_user_by_email email s.pending)) [
    | inl absent ↦
        let free = email_taken-none email s.pending absent in
        let (result, tables) =
          register_user_pending packages email password (admin ∷ []) s known free in
        let (_, _, _, settled, _) =
          register_user_ok packages email password (admin ∷ []) s known free in
        rw absent
          (elim (bind_cases (register_user packages email password (admin ∷ []))
            (λ (u : User). pure tt) s) [
              | inl (e, raised, whole) ↦ absurd (cc)
              | inr (u, returned, whole) ↦
                  subst
                    (λ (t : Result (Unit {0}) × Session).
                      (t.0 ≡ ok tt)
                      × (is_some (get_user_by_email email t.1.committed) ≡ true)
                      × Keeps s.pending t.1.committed)
                    (sym whole)
                    (subst
                      (λ (db : Db).
                        (ok tt ≡ ok tt)
                        × (is_some (get_user_by_email email db) ≡ true)
                        × Keeps s.pending db)
                      (sym (sym settled ∙ tables))
                      (
                        refl,
                        ap is_some
                            (registered-HasAccount packages email password (admin ∷ []) s free),
                        record {
                          grows = registered-Grows packages email password (admin ∷ []) s;
                          roles = refl;
                        },
                      ))
            ])
    | inr (u, present) ↦ rw present (
      refl,
      ap (λ (db : Db). is_some (get_user_by_email email db)) same ∙ ap is_some present,
      subst (Keeps s.pending) (sym same) (record { grows = Grows-refl s.pending; roles = refl }),
    )
  ]
