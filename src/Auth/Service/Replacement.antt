-- ===== src/Auth/Service/Replacement.antt =====
-- The replacement of an account's roles: set_user_roles of services/auth_service.py.
use sirius_vkr.Prelude.{ℕ, ◌≡◌, refl, ap, false, not, List, [], ◌∷◌, ◌++◌, arith, ◌==◌, ==_refl}
use sirius_vkr.Sql.{select, delete_where}
use sirius_vkr.Models.Access.{RoleName, Role, User, UserRole}
use sirius_vkr.Session.{Session}
use sirius_vkr.Auth.Roles.{roles_by_name}
use sirius_vkr.Auth.Service.{unknown_role, role_links, add_roles, set_user_roles}

links_own :
    (k : ℕ) (ls : List UserRole) (rs : List Role)
    → select (λ l. l.user_id == k) (delete_where (λ l. l.user_id == k) ls ++ role_links k rs)
      ≡ role_links k rs
links_own k [] [] = refl
links_own k [] (r ∷ rs) =
    rw (==_refl k)
      (ap (λ (ls : List UserRole). record { user_id = k; role_id = r.id } ∷ ls) (links_own k [] rs))
links_own k (l ∷ ls) rs = ground (arith, links_own k ls rs)

links_others :
    (k : ℕ) (ls : List UserRole) (rs : List Role)
    → select (λ l. not (l.user_id == k)) (delete_where (λ l. l.user_id == k) ls ++ role_links k rs)
      ≡ select (λ l. not (l.user_id == k)) ls
links_others k [] [] = refl
links_others k [] (r ∷ rs) = rw (==_refl k) (links_others k [] rs)
links_others k (l ∷ ls) rs = ground (arith, links_others k ls rs)

-- Where the roles exist, set_user_roles leaves the links of every other account as they were and
-- those of the account to the roles asked for alone.
pub set_user_roles_replaces :
    (user : User) (roles : List RoleName) (s : Session)
    → unknown_role roles s.pending ≡ false
    → let s' = (set_user_roles user roles s).1 in
      (select (λ l. l.user_id == user.id) s'.committed.user_roles
        ≡ role_links user.id (roles_by_name roles s.pending.roles))
      × (select (λ l. not (l.user_id == user.id)) s'.committed.user_roles
          ≡ select (λ l. not (l.user_id == user.id)) s.pending.user_roles)
unfolding set_user_roles add_roles
set_user_roles_replaces user roles s known =
    let links = roles_by_name roles s.pending.roles in
    ground (
      arith,
      links_own user.id s.pending.user_roles links,
      links_others user.id s.pending.user_roles links,
    )
