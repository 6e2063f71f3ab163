-- ===== src/Auth/Routes/Privileges.antt =====
-- Self-registration gives no staff rights: register of api/v1/auth.py and the guards.
use mathlib.Core.Path.{subst}
use sirius_vkr.Prelude.{
  ℕ, ◌≡◌, refl, sym, ap, ◌∙◌, Bool, true, false, not, ◌&&◌, List, [], ◌∷◌, ◌++◌, map, All, arith,
  ◌==◌, ==_refl, Bool-cases, inl, inr,
}
use sirius_vkr.Sql.{select, exists}
use sirius_vkr.Sql.Laws.{All-append, All-weaken, All-map, select-All_with, exists_none}
use sirius_vkr.Models.Access.{RoleName, child, parent, teacher, admin, same_role, Role, UserRole}
use sirius_vkr.Database.{Db}
use sirius_vkr.Exec.{err, http_exception}
use sirius_vkr.Session.{Session}
use sirius_vkr.Security.{Packages}
use sirius_vkr.Schemas.Auth.{RegisterRequest, self_assignable}
use sirius_vkr.Auth.Roles.{has_role, roles_by_name, joined_roles, roles_of, role_names}
use sirius_vkr.Auth.Service.{role_links, unknown_role, email_taken, register_user, new_user}
use sirius_vkr.Auth.Service.Accounts.{next_user, register_user_ok}
use sirius_vkr.Auth.Guards.{intersects, require_roles, require_staff}
use sirius_vkr.Auth.Routes.{all_self_assignable, register}

-- A request for a role that may not be self-assigned is refused with 403 and changes nothing.
pub register_elevated :
    (packages : Packages) (body : RegisterRequest) (s : Session)
    → all_self_assignable body.roles ≡ false
    → register packages body s ≡ (err (http_exception 403), s)
unfolding register
register_elevated packages body s h = rw h refl

abbrev Assignable : Role → Type 0
Assignable r = self_assignable r.name ≡ true

pub same_role_eq : (n m : RoleName) → same_role n m ≡ true → n ≡ m
same_role_eq n m h = ground arith

-- Two rows of core.roles with one id and two names, which its primary key forbids.
abbrev pub has_ambiguous_id : List Role → Bool
has_ambiguous_id roles =
    exists (λ r. exists (λ q. q.id == r.id && not (same_role q.name r.name)) roles) roles

-- A name among names that may be self-assigned may be.
has_role-self_assignable :
    (n : RoleName) (names : List RoleName)
    → all_self_assignable names ≡ true
    → has_role n names ≡ true
    → self_assignable n ≡ true
unfolding all_self_assignable
has_role-self_assignable n [] a h = cc
has_role-self_assignable n (m ∷ ms) a h = elim (Bool-cases (same_role n m)) [
  | inl same ↦ ap self_assignable (same_role_eq n m same) ∙ ground (arith, a)
  | inr other ↦ has_role-self_assignable n ms (ground (arith, a)) (ground (arith, h, other))
]

-- The roles that an unambiguous link names.
abbrev Unambiguous : List Role → Role → Type 0
Unambiguous roles r =
    Assignable r × (exists (λ q. q.id == r.id && not (same_role q.name r.name)) roles ≡ false)

linked-Assignable :
    (roles : List Role) (r : Role)
    → Unambiguous roles r
    → All Assignable (select (λ q. q.id == r.id) roles)
linked-Assignable roles r (assignable, clear) =
    All-weaken
      (λ (q : Role).
        ((q.id == r.id) ≡ true) × ((q.id == r.id && not (same_role q.name r.name)) ≡ false))
      Assignable (select (λ q. q.id == r.id) roles)
      (λ q h.
        let same : same_role q.name r.name ≡ true = ground (arith, h.0, h.1) in
        ap self_assignable (same_role_eq q.name r.name same) ∙ assignable)
      (select-All_with (λ q. (q.id == r.id && not (same_role q.name r.name)) ≡ false)
        (λ q. q.id == r.id) roles
        (exists_none (λ q. q.id == r.id && not (same_role q.name r.name)) roles clear))

joined-Assignable :
    (roles : List Role) (k : ℕ) (links : List UserRole) (rs : List Role)
    → exists (λ l. l.user_id == k) links ≡ false
    → All (Unambiguous roles) rs
    → All Assignable (joined_roles roles k (links ++ role_links k rs))
joined-Assignable roles k [] [] h u = tt
joined-Assignable roles k [] (r ∷ rs) h u = rw (==_refl k) (
    All-append Assignable (select (λ q. q.id == r.id) roles)
      (joined_roles roles k (role_links k rs)) (linked-Assignable roles r u.0)
      (joined-Assignable roles k [] rs h u.1))
joined-Assignable roles k (l ∷ ls) rs h u =
    let other : (l.user_id == k) ≡ false = ground (arith, h) in
    rw other (joined-Assignable roles k ls rs (ground (arith, h)) u)

-- Names that may be self-assigned open no guard of the staff.
intersects-staff :
    (names : List RoleName)
    → All (λ n. self_assignable n ≡ true) names
    → intersects (teacher ∷ admin ∷ []) names ≡ false
unfolding intersects self_assignable
intersects-staff [] h = refl
intersects-staff (child ∷ ns) h = intersects-staff ns h.1
intersects-staff (parent ∷ ns) h = intersects-staff ns h.1
intersects-staff (teacher ∷ ns) h = absurd (cc (h.0))
intersects-staff (admin ∷ ns) h = absurd (cc (h.0))

-- The roles of a registration that asks for no other are unambiguous.
wanted-Unambiguous :
    (names : List RoleName) (roles : List Role)
    → all_self_assignable names ≡ true
    → has_ambiguous_id roles ≡ false
    → All (Unambiguous roles) (roles_by_name names roles)
unfolding roles_by_name
wanted-Unambiguous names roles a clear =
    let clear_in =
      λ (r : Role). exists (λ q. q.id == r.id && not (same_role q.name r.name)) roles ≡ false in
    All-weaken (λ (r : Role). (has_role r.name names ≡ true) × clear_in r) (Unambiguous roles)
      (select (λ r. has_role r.name names) roles)
      (λ r h. (has_role-self_assignable r.name names a h.0, h.1))
      (select-All_with clear_in (λ r. has_role r.name names) roles
        (exists_none (λ r. exists (λ q. q.id == r.id && not (same_role q.name r.name)) roles) roles
          clear))

-- The names of the roles of an account that registered itself.
register_user-role_names :
    (packages : Packages) (body : RegisterRequest) (s : Session)
    → all_self_assignable body.roles ≡ true
    → unknown_role body.roles s.pending ≡ false
    → email_taken body.email s.pending ≡ false
    → exists (λ l. l.user_id == s.fresh s.drawn) s.pending.user_roles ≡ false
    → has_ambiguous_id s.pending.roles ≡ false
    → All
        (λ n. self_assignable n ≡ true)
        (role_names
          (register_user packages body.email body.password body.roles s).1.pending
          (s.fresh s.drawn))
unfolding role_names roles_of
register_user-role_names packages body s a known free unlinked clear =
    let done = register_user_ok packages body.email body.password body.roles s known free in
    let named = λ (roles : List Role) (links : List UserRole).
      All (λ n. self_assignable n ≡ true)
        (map (λ (r : Role). r.name) (joined_roles roles (s.fresh s.drawn) links)) in
    subst (λ (db : Db). named db.roles db.user_roles) (sym done.3)
      (subst
        (λ roles.
          named roles
            (register_user packages body.email body.password body.roles s).1.committed.user_roles)
        (sym done.4)
        (subst (named s.pending.roles) (sym done.2) (
          All-map (λ n. self_assignable n ≡ true) (λ (r : Role). r.name) _
            (joined-Assignable s.pending.roles (s.fresh s.drawn) s.pending.user_roles
              (roles_by_name body.roles s.pending.roles) unlinked
              (wanted-Unambiguous body.roles s.pending.roles a clear)))))

-- Where the roles asked for may be self-assigned and exist, the email is free, the id drawn has no
-- link yet and no role id is ambiguous, the staff guard refuses the new account with 403 in the
-- database that the registration commits.
pub register_user-require_staff :
    (packages : Packages) (body : RegisterRequest) (s : Session)
    → all_self_assignable body.roles ≡ true
    → unknown_role body.roles s.pending ≡ false
    → email_taken body.email s.pending ≡ false
    → exists (λ l. l.user_id == s.fresh s.drawn) s.pending.user_roles ≡ false
    → has_ambiguous_id s.pending.roles ≡ false
    → let user = next_user packages body.email body.password body.roles s in
      let s' = (register_user packages body.email body.password body.roles s).1 in
      require_staff user s' ≡ (err (http_exception 403), s')
unfolding require_roles new_user
register_user-require_staff packages body s a known free unlinked clear =
    rw (intersects-staff _ (register_user-role_names packages body s a known free unlinked clear))
      refl
