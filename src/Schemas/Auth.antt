-- ===== src/Schemas/Auth.antt =====
-- schemas/auth.py. The syntax of `EmailStr` is checked by a package and is not modelled.
use Prim.Native.String.{count}
use sirius_vkr.Prelude.{ℕ, Bool, true, false, ◌&&◌, String, List, [], ◌∷◌, leb}
use sirius_vkr.Models.Access.{RoleName, child, parent, teacher, admin}

-- `role in SELF_ASSIGNABLE_ROLES`
unfoldable pub self_assignable : RoleName → Bool
self_assignable child = true
self_assignable parent = true
self_assignable teacher = false
self_assignable admin = false

pub record RegisterRequest : Type 0 where
  pub email : String
  pub password : String
  pub roles : List RoleName

-- Field(min_length=8, max_length=128)
unfoldable pub valid_register : RegisterRequest → Bool
valid_register body = leb 8 (count body.password) && leb (count body.password) 128

-- default_factory=lambda: [RoleName.CHILD]
abbrev pub default_roles : List RoleName
default_roles = child ∷ []

pub record UserResponse : Type 0 where
  pub id : ℕ
  pub email : String
  pub is_active : Bool
  pub roles : List RoleName
  pub created_at : ℕ

pub record Token : Type 0 where
  pub access_token : String
  pub token_type : String

pub record AssignRolesRequest : Type 0 where
  pub roles : List RoleName

-- Field(min_length=1)
unfoldable pub valid_assign : AssignRolesRequest → Bool
valid_assign body = elim body.roles [ [] ↦ false | _ ∷ _ ↦ true ]
