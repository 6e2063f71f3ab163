-- ===== src/Seed/Accounts.antt =====
-- The accounts of seed_demo.py: what `_ensure_user` leaves in the tables.
use mathlib.Core.Path.{subst}
use sirius_vkr.Prelude.{
  ℕ, ◌≡◌, refl, sym, ap, ◌∙◌, false, String, none, some, List, [], ◌∷◌, ◌++◌, str_eq, inl, inr,
  Bool-cases, Option-cases, arith,
}
use sirius_vkr.Sql.{first}
use sirius_vkr.Sql.Laws.{first-append_none}
use sirius_vkr.Models.Access.{RoleName, User}
use sirius_vkr.Database.{Db}
use sirius_vkr.Exec.{Result, ok, pure}
use sirius_vkr.Exec.Laws.{bind_cases}
use sirius_vkr.Session.{Session}
use sirius_vkr.Config.{Settings}
use sirius_vkr.Security.{Packages}
use sirius_vkr.Auth.Roles.{roles_by_name}
use sirius_vkr.Auth.Service.{
  get_user_by_email, unknown_role, role_links, add_roles, email_taken, register_user,
}
use sirius_vkr.Auth.Service.Bootstrap.{email_taken-none}
use sirius_vkr.Auth.Service.Accounts.{
  next_user, next_user-email, register_user_unknown, register_user_taken,
}
use sirius_vkr.Seed.State.{Seeder}
use sirius_vkr.Seed.People.{ensured, ensure_user}
use sirius_vkr.Seed.Growth.{Grows, Grows-refl, Grows-trans, Grows-users, Grows-other, IsGrowing}

-- The account of an email has a certain id.
pub record HasAccount (email : String) (k : ℕ) (db : Db) : Type 0 where
  pub user : User
  pub found : get_user_by_email email db ≡ some user
  pub same : user.id ≡ k

module _ (packages : Packages) (email password : String) (roles : List RoleName) (s : Session) where
  -- The tables after a registration.
  abbrev pub registered : Db
  registered = record s.pending {
    users = s.pending.users ++ next_user packages email password roles s ∷ [];
    user_roles =
        s.pending.user_roles ++ role_links (s.fresh s.drawn) (roles_by_name roles s.pending.roles);
  }

  pub register_user_pending :
      unknown_role roles s.pending ≡ false
      → email_taken email s.pending ≡ false
      → ((register_user packages email password roles s).0
          ≡ ok (next_user packages email password roles s))
        × ((register_user packages email password roles s).1.pending ≡ registered)
  unfolding register_user add_roles
  register_user_pending known free = ground arith

  -- A registration that returns found the roles known and the email free.
  register_user_inverse :
      (u : User)
      → (register_user packages email password roles s).0 ≡ ok u
      → (u ≡ next_user packages email password roles s)
        × ((register_user packages email password roles s).1.pending ≡ registered)
        × (email_taken email s.pending ≡ false)
  register_user_inverse u h = elim (Bool-cases (unknown_role roles s.pending)) [
    | inl unknown ↦
        let r = register_user_unknown packages email password roles s unknown in absurd (cc)
    | inr known ↦ elim (Bool-cases (email_taken email s.pending)) [
      | inl taken ↦
          let r = register_user_taken packages email password roles s known taken in absurd (cc)
      | inr free ↦ let (r, p) = register_user_pending known free in (cc, p, free)
    ]
  ]

  pub registered-HasAccount :
      email_taken email s.pending ≡ false
      → get_user_by_email email registered ≡ some (next_user packages email password roles s)
  unfolding get_user_by_email email_taken
  registered-HasAccount free =
      let is_email = λ (v : User). str_eq v.email email in
      let u = next_user packages email password roles s in
      let own : first is_email (u ∷ []) ≡ some u =
        rw (next_user-email packages email password roles s) refl in
      first-append_none is_email s.pending.users (u ∷ []) free ∙ own

  pub registered-Grows : Grows s.pending registered
  registered-Grows =
      Grows-trans (Grows-users (next_user packages email password roles s ∷ []) s.pending)
        (Grows-other _ registered refl refl refl refl)

module _ (packages : Packages) (settings : Settings) (email : String) (role : RoleName) where
  -- `ensured` without an account, when it returns.
  ensured-none :
      (s : Session) (k : ℕ)
      → (ensured packages settings email role none s).0 ≡ ok k
      → let u = next_user packages email settings.seed_demo_password (role ∷ []) s in
        (u.id ≡ k)
        × ((ensured packages settings email role none s).1.pending
            ≡ registered packages email settings.seed_demo_password (role ∷ []) s)
        × (email_taken email s.pending ≡ false)
  unfolding ensured
  ensured-none s k h =
      elim (bind_cases (register_user packages email settings.seed_demo_password (role ∷ []))
        (λ (u : User). pure u.id) s) [
          | inl (e, raised, whole) ↦ absurd (cc)
          | inr (u, returned, whole) ↦
              let (same, tables, free) =
                register_user_inverse packages email settings.seed_demo_password (role ∷ []) s u
                  returned in
              (cc, ap (λ (t : Result ℕ × Session). t.1.pending) whole ∙ tables, free)
        ]

  ensured_ok :
      (s : Session)
      → unknown_role (role ∷ []) s.pending ≡ false
      → email_taken email s.pending ≡ false
      → (k : ℕ) × ((ensured packages settings email role none s).0 ≡ ok k)
        × ((ensured packages settings email role none s).1.pending.roles ≡ s.pending.roles)
  unfolding ensured
  ensured_ok s known free =
      let register = register_user packages email settings.seed_demo_password (role ∷ []) in
      let (result, tables) =
        register_user_pending packages email settings.seed_demo_password (role ∷ []) s known free in
      elim (bind_cases register (λ (u : User). pure u.id) s) [
        | inl (e, raised, whole) ↦ absurd (cc)
        | inr (u, returned, whole) ↦ (
          u.id,
          ap (λ t. t.0) whole,
          ap (λ t. t.1.pending.roles) whole ∙ ap (λ (db : Db). db.roles) tables,
        )
      ]

  -- With an account of the email it answers with its id and changes nothing.
  pub ensure_user_found :
      (u : User) (w : Seeder)
      → get_user_by_email email w.session.pending ≡ some u
      → ensure_user packages settings email role w ≡ (ok u.id, w)
  unfolding ensure_user ensured
  ensure_user_found u w h = rw h refl

  -- Without one it is a registration.
  ensure_user_new :
      (w : Seeder)
      → get_user_by_email email w.session.pending ≡ none
      → let (r, w') = ensure_user packages settings email role w in
        (r ≡ (ensured packages settings email role none w.session).0)
        × (w'.session ≡ (ensured packages settings email role none w.session).1)
  unfolding ensure_user
  ensure_user_new w h = rw h (refl, refl)

  -- When it returns, the email has an account of the id that it answers, and nothing is lost.
  ensure_user_post :
      (w : Seeder) (k : ℕ)
      → (ensure_user packages settings email role w).0 ≡ ok k
      → HasAccount email k (ensure_user packages settings email role w).1.session.pending
        × Grows w.session.pending (ensure_user packages settings email role w).1.session.pending
  ensure_user_post w k h = elim (Option-cases (get_user_by_email email w.session.pending)) [
    | inl absent ↦
        let (result, state) = ensure_user_new w absent in
        let (same, tables, free) = ensured-none w.session k (sym result ∙ h) in
        subst (λ (db : Db). HasAccount email k db × Grows w.session.pending db)
          (sym (ap (λ (s : Session). s.pending) state ∙ tables))
          (
            record {
              user = _;
              found =
                  registered-HasAccount packages email settings.seed_demo_password (role ∷ [])
                    w.session free;
              same = same;
            },
            registered-Grows packages email settings.seed_demo_password (role ∷ []) w.session,
          )
    | inr (u, present) ↦
        let whole = ensure_user_found u w present in
        subst
          (λ (t : Result ℕ × Seeder).
            HasAccount email k t.1.session.pending × Grows w.session.pending t.1.session.pending)
          (sym whole)
          (record { user = u; found = present; same = cc }, Grows-refl w.session.pending)
  ]

  pub ensure_user-IsGrowing : IsGrowing (ensure_user packages settings email role)
  ensure_user-IsGrowing = record { grows = λ w k h. (ensure_user_post w k h).1 }

  pub ensure_user-HasAccount :
      (w : Seeder) (k : ℕ)
      → (ensure_user packages settings email role w).0 ≡ ok k
      → HasAccount email k (ensure_user packages settings email role w).1.session.pending
  ensure_user-HasAccount w k h = (ensure_user_post w k h).0

  -- Where the role exists it returns, and leaves the roles as they were.
  pub ensure_user_ok :
      (w : Seeder)
      → unknown_role (role ∷ []) w.session.pending ≡ false
      → (k : ℕ) × ((ensure_user packages settings email role w).0 ≡ ok k)
        × ((ensure_user packages settings email role w).1.session.pending.roles
            ≡ w.session.pending.roles)
  ensure_user_ok w known = elim (Option-cases (get_user_by_email email w.session.pending)) [
    | inl absent ↦
        let (result, state) = ensure_user_new w absent in
        let (k, returned, tables) =
          ensured_ok w.session known (email_taken-none email w.session.pending absent) in
        (k, result ∙ returned, ap (λ (s : Session). s.pending.roles) state ∙ tables)
    | inr (u, present) ↦
        let whole = ensure_user_found u w present in
        (u.id, ap (λ t. t.0) whole, ap (λ t. t.1.session.pending.roles) whole)
  ]
