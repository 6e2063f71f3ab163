-- ===== src/Auth/Roles.antt =====
-- Sets of role names, and the roles of an account through core.user_roles.
use sirius_vkr.Prelude.{
  ℕ, suc, Bool, false, ◌||◌, List, [], ◌∷◌, ◌++◌, map, ◌==◌, leb, if◌then◌else◌,
}
use sirius_vkr.Sql.{select, order_by}
use sirius_vkr.Models.Access.{RoleName, child, parent, teacher, admin, same_role, Role, UserRole}
use sirius_vkr.Database.{Db}

-- `name in names`
abbrev pub has_role : RoleName → List RoleName → Bool
has_role n [] = false
has_role n (m ∷ ms) = same_role n m || has_role n ms

-- `len(set(names))`
abbrev pub count_roles : List RoleName → ℕ
count_roles [] = 0
count_roles (n ∷ ns) = let rest = count_roles ns in if has_role n ns then rest else suc rest

-- The alphabetical order of the four names.
abbrev pub rank : RoleName → ℕ
rank admin = 0
rank child = 1
rank parent = 2
rank teacher = 3

-- `sorted(...)` of role names
unfoldable pub sort_roles : List RoleName → List RoleName
sort_roles = order_by (λ a b. leb (rank a) (rank b))

-- `select(Role).where(Role.name.in_(wanted))`
unfoldable pub roles_by_name : List RoleName → List Role → List Role
roles_by_name names = select (λ r. has_role r.name names)

-- The join of core.user_roles with core.roles, for one account.
abbrev pub joined_roles : List Role → ℕ → List UserRole → List Role
joined_roles roles k [] = []
joined_roles roles k (l ∷ ls) =
    let rest = joined_roles roles k ls in
    if l.user_id == k then select (λ r. r.id == l.role_id) roles ++ rest else rest

-- `User.roles`
unfoldable pub roles_of : Db → ℕ → List Role
roles_of db k = joined_roles db.roles k db.user_roles

-- `{role.name for role in user.roles}`
unfoldable pub role_names : Db → ℕ → List RoleName
unfolding roles_of
role_names db k = map (λ r. r.name) (roles_of db k)
