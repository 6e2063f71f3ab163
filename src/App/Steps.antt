-- ===== src/App/Steps.antt =====
-- The admin and the demo contents of a start: lifespan of main.py.
use mathlib.Core.Path.{subst}
use sirius_vkr.Prelude.{
  ◌≡◌, refl, sym, ap, ◌∙◌, Bool, true, false, String, Option, none, some, [], ◌∷◌, Option-cases,
  inl, inr,
}
use sirius_vkr.Models.Access.{admin}
use sirius_vkr.Database.{Db}
use sirius_vkr.Exec.{Result, ok}
use sirius_vkr.Config.{Settings}
use sirius_vkr.Security.{Packages}
use sirius_vkr.Postgres.{Postgres}
use sirius_vkr.Auth.Service.{get_user_by_email, unknown_role, ensure_bootstrap_admin}
use sirius_vkr.Auth.Service.Bootstrap.{bootstrap_found}
use sirius_vkr.Seed.{seed}
use sirius_vkr.Seed.State.{Random, in_session}
use sirius_vkr.Seed.Growth.{Grows, Grows-refl}
use sirius_vkr.Seed.Returns.{HasRoles}
use sirius_vkr.Seed.Complete.{seed_returns}
use sirius_vkr.Seed.Outcome.{IsSeeded, seed-IsSeeded, seed-IsGrowing}
use sirius_vkr.Seed.Settled.{seed_settles}
use sirius_vkr.Seed.Again.{seed_idle}
use sirius_vkr.App.{Process, run_session, with_session, provision_admin, seed_demo}
use sirius_vkr.App.Start.{
  tables, opened, HasAdmin, with_session_up, suppress_ok, Keeps, bootstrap_post,
}

-- A run by its outcome.
pub pair_of : {S A : Type 0} {t : Result A × S} {a : A} → t.0 ≡ ok a → t ≡ (ok a, t.1)
pair_of {t = t} h = ap (λ r. (r, t.1)) h

-- Every role is in core.roles.
abbrev pub HasAllRoles : Db → Type 0
HasAllRoles db = HasRoles db × (unknown_role (admin ∷ []) db ≡ false)

-- The demo contents are there where the settings ask for them.
abbrev pub HasDemo : Bool → Db → Type 0
HasDemo true db = IsSeeded db
HasDemo false db = Unit

module _ (packages : Packages) where
  pub provision_admin_post :
      (o : Option (String × String)) (p : Process)
      → p.postgres_answers ≡ true
      → unknown_role (admin ∷ []) (tables p) ≡ false
      → let (r, p') = provision_admin packages o p in
        (r ≡ ok tt) × HasAdmin o (tables p') × Keeps (tables p) (tables p')
  unfolding provision_admin
  provision_admin_post none p up known =
      (refl, tt, record { grows = Grows-refl (tables p); roles = refl })
  provision_admin_post (some (email, password)) p up known =
      subst
        (λ (t : Result (Unit {0}) × Process).
          (t.0 ≡ ok tt)
          × HasAdmin (some (email, password)) (tables t.1)
          × Keeps (tables p) (tables t.1))
        (sym (with_session_up (in_session (ensure_bootstrap_admin packages email password)) p up))
        (bootstrap_post packages email password (opened p).session known refl)

  pub provision_admin_answers :
      (o : Option (String × String)) (p : Process)
      → p.postgres_answers ≡ true
      → (provision_admin packages o p).1.postgres_answers ≡ true
  unfolding provision_admin
  provision_admin_answers none p up = up
  provision_admin_answers (some (email, password)) p up =
      ap (λ t. t.1.postgres_answers)
        (with_session_up (in_session (ensure_bootstrap_admin packages email password)) p up)
      ∙ up

  pub provision_admin_idle :
      (o : Option (String × String)) (p : Process)
      → p.postgres_answers ≡ true
      → HasAdmin o (tables p)
      → let (r, p') = provision_admin packages o p in (r ≡ ok tt) × (tables p' ≡ tables p)
  unfolding provision_admin
  provision_admin_idle none p up h = (refl, refl)
  provision_admin_idle (some (email, password)) p up h =
      elim (Option-cases (get_user_by_email email (tables p))) [
        | inl absent ↦ absurd (cc)
        | inr (u, present) ↦
            let opens =
              with_session_up (in_session (ensure_bootstrap_admin packages email password)) p up in
            let idle = bootstrap_found packages email password u (opened p).session present in
            (
              ap (λ t. t.0) opens ∙ ap (λ t. t.0) idle,
              ap (λ t. tables t.1) opens ∙ ap (λ t. t.1.committed) idle,
            )
      ]

module _ (pg : Postgres) (random : Random) (packages : Packages) (settings : Settings) where
  -- The seed of a start, where PostgreSQL answers.
  seed_demo_up :
      (p : Process)
      → p.postgres_answers ≡ true
      → seed_demo pg random packages settings true p
        ≡ (ok tt, (run_session (seed pg random packages settings) p).1)
  unfolding seed_demo
  seed_demo_up p up =
      suppress_ok (with_session (seed pg random packages settings)) p
      ∙ ap (λ t. (ok tt, t.1)) (with_session_up (seed pg random packages settings) p up)

  pub seed_demo_post :
      (b : Bool) (p : Process)
      → p.postgres_answers ≡ true
      → HasRoles (tables p)
      → let (r, p') = seed_demo pg random packages settings b p in
        (r ≡ ok tt) × HasDemo b (tables p') × Grows (tables p) (tables p')
  unfolding seed_demo
  seed_demo_post false p up h = (refl, tt, Grows-refl (tables p))
  seed_demo_post true p up h =
      let returned = seed_returns packages settings pg random (opened p) h in
      let settled = seed_settles pg random packages settings (opened p) returned in
      subst
        (λ (t : Result (Unit {0}) × Process).
          (t.0 ≡ ok tt) × IsSeeded (tables t.1) × Grows (tables p) (tables t.1))
        (sym (seed_demo_up p up))
        (
          refl,
          subst IsSeeded (sym settled)
              (seed-IsSeeded pg random packages settings (opened p) returned),
          subst (Grows (tables p)) (sym settled)
              ((seed-IsGrowing pg random packages settings).grows (opened p) tt returned),
        )

  pub seed_demo_idle :
      (b : Bool) (p : Process)
      → p.postgres_answers ≡ true
      → HasDemo b (tables p)
      → let (r, p') = seed_demo pg random packages settings b p in
        (r ≡ ok tt) × (tables p' ≡ tables p)
  unfolding seed_demo
  seed_demo_idle false p up h = (refl, refl)
  seed_demo_idle true p up h =
      let (n, idle) = seed_idle pg random packages settings (opened p) h in
      let whole = seed_demo_up p up in
      (ap (λ t. t.0) whole, ap (λ t. tables t.1) whole ∙ ap (λ t. t.1.session.committed) idle)
