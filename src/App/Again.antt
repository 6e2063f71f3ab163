-- ===== src/App/Again.antt =====
-- A start of the API after another: lifespan of main.py.
use mathlib.Core.Path.{subst}
use sirius_vkr.Prelude.{
  ◌≡◌, sym, ap, ◌∙◌, true, false, String, Option, none, some, [], ◌∷◌, is_some, Option-cases, inl,
  inr, arith,
}
use sirius_vkr.Models.Access.{admin}
use sirius_vkr.Database.{Db}
use sirius_vkr.Exec.{Result, ok, ◌>>=◌}
use sirius_vkr.Exec.Laws.{bind_ok}
use sirius_vkr.Config.{Settings}
use sirius_vkr.Security.{Packages}
use sirius_vkr.Postgres.{Postgres}
use sirius_vkr.Auth.Service.{get_user_by_email, unknown_role}
use sirius_vkr.Seed.State.{Random, Seeder}
use sirius_vkr.Seed.Growth.{Grows, Grows-trans}
use sirius_vkr.Seed.Returns.{HasRoles-same}
use sirius_vkr.App.{
  Process, suppress, init_redis, xgroup_create, admin_of, provision_admin, seed_demo, startup,
}
use sirius_vkr.App.Start.{tables, HasAdmin, suppress_ok}
use sirius_vkr.App.Steps.{
  pair_of, HasAllRoles, HasDemo, provision_admin_post, provision_admin_answers,
  provision_admin_idle, seed_demo_post, seed_demo_idle,
}

module _ (pg : Postgres) (random : Random) (packages : Packages) (settings : Settings) where
  -- The start once the client and the consumer group are dealt with.
  abbrev pub connected : Process → Process
  connected p = (suppress xgroup_create (record p { has_client = true })).1

  pub xgroup_create_keeps : (p : Process) → (suppress xgroup_create p).1.seeder ≡ p.seeder
  unfolding xgroup_create
  xgroup_create_keeps p = ground arith

  -- PostgreSQL goes on answering, or not answering.
  pub connected_answers : (p : Process) → (connected p).postgres_answers ≡ p.postgres_answers
  unfolding xgroup_create
  connected_answers p = ground arith

  abbrev pub admin_asked : Option (String × String)
  admin_asked = admin_of settings.bootstrap_admin_email settings.bootstrap_admin_password

  pub startup-connected :
      (p : Process)
      → startup pg random packages settings p
        ≡ (provision_admin packages admin_asked >>= λ _.
              seed_demo pg random packages settings settings.seed_demo)
            (connected p)
  unfolding startup init_redis
  startup-connected p =
      bind_ok (suppress xgroup_create)
        (λ _. provision_admin packages admin_asked >>= λ _.
          seed_demo pg random packages settings settings.seed_demo)
        (record p { has_client = true }) (connected p) tt
        (pair_of (ap (λ t. t.0) (suppress_ok xgroup_create (record p { has_client = true }))))

  -- What a start leaves: the admin and the demo contents that the settings ask for.
  abbrev pub IsStarted : Db → Type 0
  IsStarted db = HasAdmin admin_asked db × HasDemo settings.seed_demo db

  HasAdmin-stable :
      (o : Option (String × String)) (db db' : Db) → Grows db db' → HasAdmin o db → HasAdmin o db'
  HasAdmin-stable none db db' g h = tt
  HasAdmin-stable (some (email, password)) db db' g h =
      elim (Option-cases (get_user_by_email email db)) [
        | inl absent ↦ absurd (cc)
        | inr (u, present) ↦ ap is_some (g.account email u present)
      ]

  -- Where PostgreSQL answers and the roles exist a start returns, with the admin and the demo contents that the settings
  -- ask for committed and no badge, account, student or course lost, whatever Redis answers.
  pub startup_post :
      (p : Process)
      → p.postgres_answers ≡ true
      → HasAllRoles (tables p)
      → let (r, p') = startup pg random packages settings p in
        (r ≡ ok tt) × IsStarted (tables p') × Grows (tables p) (tables p')
  startup_post p answers (roles, known) =
      let up = connected_answers p ∙ answers in
      let c = connected p in
      let kept : tables c ≡ tables p =
        ap (λ (w : Seeder). w.session.committed)
          (xgroup_create_keeps (record p { has_client = true })) in
      let (first, has_admin, left) =
        provision_admin_post packages admin_asked c up
          (subst (λ (db : Db). unknown_role (admin ∷ []) db ≡ false) (sym kept) known) in
      let q = (provision_admin packages admin_asked c).1 in
      let (second, has_demo, more) =
        seed_demo_post pg random packages settings settings.seed_demo q
          (provision_admin_answers packages admin_asked c up)
          (HasRoles-same (tables p) (tables q) (left.roles ∙ ap (λ (db : Db). db.roles) kept)
            roles) in
      let whole =
        startup-connected p
        ∙ bind_ok (provision_admin packages admin_asked)
            (λ _. seed_demo pg random packages settings settings.seed_demo) c q tt
            (pair_of first) in
      subst
        (λ (t : Result (Unit {0}) × Process).
          (t.0 ≡ ok tt) × IsStarted (tables t.1) × Grows (tables p) (tables t.1))
        (sym whole)
        (
          second,
          (
            HasAdmin-stable admin_asked (tables q)
                (tables (seed_demo pg random packages settings settings.seed_demo q).1) more
                has_admin,
            has_demo,
          ),
          Grows-trans (subst (λ (db : Db). Grows db (tables q)) kept left.grows) more,
        )

  -- On tables with all that a start returns and writes none of them.
  startup_idle :
      (p : Process)
      → p.postgres_answers ≡ true
      → IsStarted (tables p)
      → let (r, p') = startup pg random packages settings p in (r ≡ ok tt) × (tables p' ≡ tables p)
  startup_idle p answers started =
      let up = connected_answers p ∙ answers in
      let c = connected p in
      let kept : tables c ≡ tables p =
        ap (λ (w : Seeder). w.session.committed)
          (xgroup_create_keeps (record p { has_client = true })) in
      let (has_admin, has_demo) = subst IsStarted (sym kept) started in
      let (first, same) = provision_admin_idle packages admin_asked c up has_admin in
      let q = (provision_admin packages admin_asked c).1 in
      let (second, same') =
        seed_demo_idle pg random packages settings settings.seed_demo q
          (provision_admin_answers packages admin_asked c up)
          (subst (HasDemo settings.seed_demo) (sym same) has_demo) in
      let whole =
        startup-connected p
        ∙ bind_ok (provision_admin packages admin_asked)
            (λ _. seed_demo pg random packages settings settings.seed_demo) c q tt
            (pair_of first) in
      (ap (λ t. t.0) whole ∙ second, ap (λ t. tables t.1) whole ∙ same' ∙ same ∙ kept)

module _ (pg : Postgres) (packages : Packages) (settings : Settings) (random random' : Random) where
  -- Where the roles exist and PostgreSQL answers, a start returns, and a start from the tables that it
  -- commits returns and leaves them as they are, whatever Redis answers to either.
  pub startup_again :
      (p q : Process)
      → p.postgres_answers ≡ true
      → q.postgres_answers ≡ true
      → HasAllRoles (tables p)
      → tables q ≡ tables (startup pg random packages settings p).1
      → ((startup pg random packages settings p).0 ≡ ok tt)
        × ((startup pg random' packages settings q).0 ≡ ok tt)
        × (tables (startup pg random' packages settings q).1 ≡ tables q)
  startup_again p q up up' roles same =
      let (returned, started, _) = startup_post pg random packages settings p up roles in
      let idle =
        startup_idle pg random' packages settings q up'
          (subst (IsStarted pg random packages settings) (sym same) started) in
      (returned, idle.0, idle.1)
