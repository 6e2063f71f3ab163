-- ===== src/App/Recovery.antt =====
-- A start of the API without its database, and one with it: lifespan of main.py.
use mathlib.Core.Path.{subst}
use sirius_vkr.Prelude.{◌≡◌, refl, sym, ap, ◌∙◌, Bool, true, false, String, Option, none, some}
use sirius_vkr.Exec.{Result, ok, err, connection_error, ◌>>=◌}
use sirius_vkr.Config.{Settings}
use sirius_vkr.Security.{Packages}
use sirius_vkr.Postgres.{Postgres}
use sirius_vkr.Seed.{seed}
use sirius_vkr.Seed.State.{Random, Seeder}
use sirius_vkr.App.{Process, with_session, provision_admin, seed_demo, startup}
use sirius_vkr.App.Start.{tables, with_session_down, suppress_ok}
use sirius_vkr.App.Steps.{HasAllRoles}
use sirius_vkr.App.Again.{
  connected, connected_answers, admin_asked, xgroup_create_keeps, startup-connected, IsStarted,
  startup_post,
}

-- Without PostgreSQL an admin that the settings ask for ends the start, and demo contents do not.
abbrev refused : Option (String × String) → Result (Unit {0})
refused none = ok tt
refused (some _) = err connection_error

module _ (pg : Postgres) (random : Random) (packages : Packages) (settings : Settings) where
  seed_demo_down :
      (b : Bool) (p : Process)
      → p.postgres_answers ≡ false
      → seed_demo pg random packages settings b p ≡ (ok tt, p)
  unfolding seed_demo
  seed_demo_down false p down = refl
  seed_demo_down true p down =
      suppress_ok (with_session (seed pg random packages settings)) p
      ∙ ap (λ t. (ok tt, t.1)) (with_session_down (seed pg random packages settings) p down)

  accounts_down :
      (o : Option (String × String)) (b : Bool) (p : Process)
      → p.postgres_answers ≡ false
      → (provision_admin packages o >>= λ _. seed_demo pg random packages settings b) p
        ≡ (refused o, p)
  unfolding provision_admin
  accounts_down none b p down = seed_demo_down b p down
  accounts_down (some (email, password)) b p down = rw down refl

  startup_down :
      (p : Process)
      → p.postgres_answers ≡ false
      → startup pg random packages settings p ≡ (
        refused (admin_asked pg random packages settings),
        connected pg random packages settings p,
      )
  startup_down p down =
      startup-connected pg random packages settings p
      ∙ accounts_down (admin_asked pg random packages settings) settings.seed_demo
          (connected pg random packages settings p)
          (connected_answers pg random packages settings p ∙ down)

  -- A start that PostgreSQL does not answer raises exactly where the settings ask for an admin, and
  -- leaves the tables; where the roles exist, a start from there that it answers returns with the admin
  -- and the demo contents that the settings ask for, whatever Redis answers to either.
  startup_recovers :
      (p q : Process)
      → p.postgres_answers ≡ false
      → q.postgres_answers ≡ true
      → HasAllRoles (tables p)
      → tables q ≡ tables (startup pg random packages settings p).1
      → let (r, p') = startup pg random packages settings p in
        let (r', q') = startup pg random packages settings q in
        (r ≡ refused (admin_asked pg random packages settings))
        × (tables p' ≡ tables p)
        × (r' ≡ ok tt)
        × IsStarted pg random packages settings (tables q')
  startup_recovers p q down up roles same =
      let whole = startup_down p down in
      let kept : tables (startup pg random packages settings p).1 ≡ tables p =
        ap (λ t. tables t.1) whole
        ∙ ap (λ (w : Seeder). w.session.committed)
            (xgroup_create_keeps pg random packages settings (record p { has_client = true })) in
      let (returned, started, _) =
        startup_post pg random packages settings q up
          (subst HasAllRoles (sym (same ∙ kept)) roles) in
      (ap (λ t. t.0) whole, kept, returned, started)
