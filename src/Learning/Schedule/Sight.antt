-- ===== src/Learning/Schedule/Sight.antt =====
-- The groups whose slots an account sees: schedule_scope.
use sirius_vkr.Prelude.{
  ℕ, ◌≡◌, refl, ap, ◌∙◌, Bool, true, false, ◌&&◌, ◌||◌, Option, none, some, List, [], ◌∷◌, ◌++◌,
  arith, ◌==◌, if◌then◌else◌,
}
use sirius_vkr.Sql.{exists, member, eq_null}
use sirius_vkr.Sql.Found.{exists_ext}
use sirius_vkr.Models.Access.{RoleName, child, parent, teacher, admin}
use sirius_vkr.Models.Learning.{Enrollment}
use sirius_vkr.Database.{Db}
use sirius_vkr.Auth.Roles.{has_role, role_names}
use sirius_vkr.Learning.Subjects.{resolve_student_for_user, resolve_children_ids}
use sirius_vkr.Learning.Schedule.{own_ids, visible_group, schedule_scope}

-- A student whom an account may view in the portal: its own record with the child role, a child of it
-- with the parent role.
abbrev pub may_view : Db → ℕ → ℕ → Bool
may_view db uid k =
    has_role child (role_names db uid) && eq_null (resolve_student_for_user uid db) k
    || has_role parent (role_names db uid) && member k (resolve_children_ids uid db)

-- A group whose slots an account sees: any for the staff, else one with a student whom it may view.
abbrev pub sees : Db → ℕ → ℕ → Bool
sees db uid gid =
    has_role teacher (role_names db uid)
    || has_role admin (role_names db uid)
    || exists (λ (e : Enrollment). may_view db uid e.student_id && e.group_id == gid) db.enrollments

member-append : (k : ℕ) (xs ys : List ℕ) → member k (xs ++ ys) ≡ (member k xs || member k ys)
member-append k [] ys = refl
member-append k (x ∷ xs) ys = ground (arith, member-append k xs ys)

own_member :
    (is_child : Bool) (own : Option ℕ) (k : ℕ)
    → member k (if is_child then own_ids own else []) ≡ (is_child && eq_null own k)
unfolding own_ids
own_member false own k = refl
own_member true none k = refl
own_member true (some j) k = ground arith

children_member :
    (is_parent : Bool) (children : List ℕ) (k : ℕ)
    → member k (if is_parent then children else []) ≡ (is_parent && member k children)
children_member false children k = refl
children_member true children k = refl

-- The scope of an account is the groups that it sees.
pub scope_sees :
    (db : Db) (uid gid : ℕ)
    → visible_group db (schedule_scope db uid (role_names db uid)) gid ≡ sees db uid gid
unfolding visible_group schedule_scope
scope_sees db uid gid =
    by_staff (has_role teacher (role_names db uid)) (has_role admin (role_names db uid))
  where
    names : List RoleName
    names = role_names db uid

    own : List ℕ
    own = if has_role child names then own_ids (resolve_student_for_user uid db) else []

    children : List ℕ
    children = if has_role parent names then resolve_children_ids uid db else []

    of_row :
        (e : Enrollment)
        → (member e.student_id (own ++ children) && e.group_id == gid)
          ≡ (may_view db uid e.student_id && e.group_id == gid)
    of_row e =
        ap (λ b. b && e.group_id == gid)
          (member-append e.student_id own children
            ∙ rw
                (
                  own_member (has_role child names) (resolve_student_for_user uid db) e.student_id,
                  children_member (has_role parent names) (resolve_children_ids uid db)
                      e.student_id,
                )
                refl)

    by_staff :
        (t a : Bool)
        → visible_group db (if t || a then none else some (own ++ children)) gid ≡ (
            t
            || a
            || exists
                (λ (e : Enrollment). may_view db uid e.student_id && e.group_id == gid)
                db.enrollments)
    by_staff true a = refl
    by_staff false true = refl
    by_staff false false = exists_ext _ _ db.enrollments of_row
