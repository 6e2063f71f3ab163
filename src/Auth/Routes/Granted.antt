-- ===== src/Auth/Routes/Granted.antt =====
-- The roles that an account holds once it is registered: register_user of auth_service.py, read
-- through User.roles.
use sirius_vkr.Prelude.{
  ℕ, ◌≡◌, refl, ap, ◌∙◌, Bool, true, false, not, ◌&&◌, ◌||◌, String, List, [], ◌∷◌, ◌++◌, map, All,
  arith, ◌==◌, ==_refl, Bool-cases, inl, inr,
}
use sirius_vkr.Sql.{select, exists}
use sirius_vkr.Sql.Laws.{exists_none, All-select}
use sirius_vkr.Sql.Found.{All-zip, found_self}
use sirius_vkr.Models.Access.{RoleName, same_role, Role, User, UserRole}
use sirius_vkr.Exec.{ok}
use sirius_vkr.Session.{Session}
use sirius_vkr.Security.{Packages, verify_password, hash_password}
use sirius_vkr.Auth.Roles.{has_role, roles_by_name, joined_roles, roles_of, role_names}
use sirius_vkr.Auth.Service.{role_links, unknown_role, email_taken, register_user, new_user}
use sirius_vkr.Auth.Service.Accounts.{next_user, register_user_ok}
use sirius_vkr.Auth.Routes.Privileges.{same_role_eq, has_ambiguous_id}

abbrev has_named : RoleName → List Role → Bool
has_named n rs = has_role n (map (λ (r : Role). r.name) rs)

has_named-append :
    (n : RoleName) (rs qs : List Role) → has_named n (rs ++ qs) ≡ (has_named n rs || has_named n qs)
has_named-append n [] qs = refl
has_named-append n (r ∷ rs) qs = ground (arith, has_named-append n rs qs)

-- No row has the id of the role under another name.
abbrev IsClear : List Role → Role → Type 0
IsClear qs r = exists (λ q. q.id == r.id && not (same_role q.name r.name)) qs ≡ false

-- A link to a role gives its name.
linked_named :
    (n : RoleName) (r : Role) (qs : List Role)
    → IsClear qs r
    → has_named n (select (λ q. q.id == r.id) qs)
      ≡ (exists (λ (q : Role). q.id == r.id) qs && same_role n r.name)
linked_named n r [] clear = refl
linked_named n r (q ∷ qs) clear = elim (Bool-cases (q.id == r.id)) [
  | inl linked ↦
      let named : q.name ≡ r.name = same_role_eq q.name r.name (ground (arith, clear, linked)) in
      let rest = linked_named n r qs (ground (arith, clear)) in
      let same : same_role n q.name ≡ same_role n r.name = ap (same_role n) named in
      ground (arith, linked, rest, same)
  | inr other ↦
      let rest = linked_named n r qs (ground (arith, clear)) in ground (arith, other, rest)
]

-- The links of an account that has only these give the names of their roles.
joined_named :
    (n : RoleName) (roles : List Role) (k : ℕ) (links : List UserRole) (rs : List Role)
    → exists (λ (l : UserRole). l.user_id == k) links ≡ false
    → All (λ r. (exists (λ (q : Role). q.id == r.id) roles ≡ true) × IsClear roles r) rs
    → has_named n (joined_roles roles k (links ++ role_links k rs)) ≡ has_named n rs
joined_named n roles k [] [] h u = refl
joined_named n roles k [] (r ∷ rs) h ((there, clear), u) =
    rw
      (
        ==_refl k,
        has_named-append n (select (λ q. q.id == r.id) roles)
            (joined_roles roles k (role_links k rs)),
        linked_named n r roles clear,
        there,
        joined_named n roles k [] rs h u,
      )
      refl
joined_named n roles k (l ∷ ls) rs h u =
    let other : (l.user_id == k) ≡ false = ground (arith, h) in
    rw other (joined_named n roles k ls rs (ground (arith, h)) u)

-- The roles found by some names have the names among them that core.roles has.
selected_named :
    (n : RoleName) (names : List RoleName) (roles : List Role)
    → has_named n (select (λ (r : Role). has_role r.name names) roles)
      ≡ (has_role n names && has_named n roles)
selected_named n names [] = ground arith
selected_named n names (r ∷ rs) = elim (Bool-cases (same_role n r.name)) [
  | inl same ↦
      let equal : has_role n names ≡ has_role r.name names =
        ap (λ m. has_role m names) (same_role_eq n r.name same) in
      ground (arith, equal, same, selected_named n names rs)
  | inr other ↦ ground (arith, other, selected_named n names rs)
]

own_ids_there :
    (roles : List Role) → All (λ r. exists (λ (q : Role). q.id == r.id) roles ≡ true) roles
own_ids_there roles = found_self (λ (r : Role). r.id) roles

module _ (packages : Packages) (email password : String) (roles : List RoleName) (s : Session) where
  -- Where the roles asked for exist, the email is free, the id drawn has no link yet and no role id is
  -- ambiguous, register_user returns an active account with the email, whose hash accepts the password
  -- and which holds the roles asked for that core.roles has, and no others, in the database that it
  -- commits.
  pub role_names-register_user :
      unknown_role roles s.pending ≡ false
      → email_taken email s.pending ≡ false
      → exists (λ (l : UserRole). l.user_id == s.fresh s.drawn) s.pending.user_roles ≡ false
      → has_ambiguous_id s.pending.roles ≡ false
      → let (r, s') = register_user packages email password roles s in
        (user : User) × (r ≡ ok user)
        × (user.email ≡ email)
        × (user.is_active ≡ true)
        × (verify_password packages password user.password_hash ≡ true)
        × ((n : RoleName)
            → has_role n (role_names s'.committed user.id)
              ≡ (has_role n roles && has_role n (map (λ (r : Role). r.name) s.pending.roles)))
  unfolding role_names roles_of roles_by_name new_user hash_password verify_password
  role_names-register_user known free unlinked clear =
      let (returned, _, links, _, kept) =
        register_user_ok packages email password roles s known free in
      let k = s.fresh s.drawn in
      let wanted = select (λ (r : Role). has_role r.name roles) s.pending.roles in
      let clean = exists_none _ s.pending.roles clear in
      (
        next_user packages email password roles s,
        returned,
        refl,
        refl,
        packages.verify_hash k password,
        λ n.
            ap
              (λ rs. has_named n (
                joined_roles rs k
                  (register_user packages email password roles s).1.committed.user_roles))
              kept
            ∙ ap (λ ls. has_named n (joined_roles s.pending.roles k ls)) links
            ∙ joined_named n s.pending.roles k s.pending.user_roles wanted unlinked (
                All-select _ (λ (r : Role). has_role r.name roles) s.pending.roles
                  (All-zip _ _ s.pending.roles (own_ids_there s.pending.roles) clean))
            ∙ selected_named n roles s.pending.roles,
      )
