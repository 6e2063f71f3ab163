-- ===== src/Learning/Portal/Access.antt =====
-- Whom the portal shows to whom: _resolve_target_student of api/v1/portal.py.
use sirius_vkr.Prelude.{
  ℕ, ◌≡◌, refl, sym, ap, ◌∙◌, Bool, true, false, ◌⊎◌, Option, none, some, List, [], ◌∷◌, arith,
  ◌==◌, inl, inr, ==_iff, ==_refl, Bool-cases, if_property,
}
use sirius_vkr.Sql.{member}
use sirius_vkr.Models.Access.{child, parent, User}
use sirius_vkr.Database.{Db}
use sirius_vkr.Exec.{Exec, pure, raise, Result, ok, err, http_exception}
use sirius_vkr.Session.{Session}
use sirius_vkr.Auth.Roles.{has_role, role_names}
use sirius_vkr.Learning.Subjects.{resolve_student_for_user, resolve_children_ids}
use sirius_vkr.Learning.Portal.{own_target, parent_target, target_or, resolve_target_student}

ok-injective : (j k : ℕ) → Result.ok j ≡ ok k → j ≡ k
ok-injective j k h = cc

-- An account with the child role may see its own record, one with the parent role its children.
abbrev pub MayView : Db → ℕ → ℕ → Type 0
MayView db uid k =
    ((has_role child (role_names db uid) ≡ true) × (resolve_student_for_user uid db ≡ some k))
    ⊎ ((has_role parent (role_names db uid) ≡ true)
        × (member k (resolve_children_ids uid db) ≡ true))

parent_target_allowed :
    (is_parent : Bool) (children : List ℕ) (asked : Option ℕ) (s : Session) (k : ℕ)
    → (parent_target is_parent children asked s).0 ≡ ok k
    → (is_parent ≡ true) × (member k children ≡ true)
unfolding parent_target
parent_target_allowed false children asked s k h = absurd (cc)
parent_target_allowed true [] none s k h = absurd (cc)
parent_target_allowed true (c ∷ cs) none s k h = (refl, ground arith)
parent_target_allowed true children (some j) s k shown =
    if_property
      (λ (m : Exec Session ℕ). (m s).0 ≡ ok k → (true ≡ true) × (member k children ≡ true))
      (member j children) (pure j) (raise (http_exception 403))
      (λ e h. (refl, ap (λ n. member n children) (sym (ok-injective j k h)) ∙ e))
      (λ _ h. absurd (cc)) shown

own_target_allowed :
    (is_child : Bool) (own asked : Option ℕ) (k : ℕ)
    → own_target is_child own asked ≡ some k
    → (is_child ≡ true) × (own ≡ some k)
unfolding own_target
own_target_allowed false own asked k h = absurd (cc)
own_target_allowed true none asked k h = absurd (cc)
own_target_allowed true (some o) none k h = (refl, h)
own_target_allowed true (some o) (some j) k h = (refl, ground arith)

-- Both branches on their inputs: who is shown may be seen.
target_allowed :
    (first_branch : Option ℕ) (second_branch : Exec Session ℕ) (s : Session) (k : ℕ)
    → (target_or first_branch second_branch s).0 ≡ ok k
    → (first_branch ≡ some k) ⊎ ((second_branch s).0 ≡ ok k)
unfolding target_or
target_allowed none m s k h = inr h
target_allowed (some j) m s k h = inl (ap some (ok-injective j k h))

-- A student with whom the portal goes on is the own record of an account with the child role or a
-- child of an account with the parent role.
pub resolve_target_student_allowed :
    (user : User) (asked : Option ℕ) (s : Session) (k : ℕ)
    → (resolve_target_student user asked s).0 ≡ ok k
    → MayView s.pending user.id k
unfolding resolve_target_student
resolve_target_student_allowed user asked s k h =
    let names = role_names s.pending user.id in
    let own = resolve_student_for_user user.id s.pending in
    let children = resolve_children_ids user.id s.pending in
    elim (target_allowed (own_target (has_role child names) own asked)
      (parent_target (has_role parent names) children asked) s k h) [
        | inl shown ↦ inl (own_target_allowed (has_role child names) own asked k shown)
        | inr shown ↦ inr (parent_target_allowed (has_role parent names) children asked s k shown)
      ]

-- A record that is asked for is the only one that the first branch can return.
own_target_cases :
    (is_child : Bool) (own : Option ℕ) (j : ℕ)
    → (own_target is_child own (some j) ≡ none) ⊎ (own_target is_child own (some j) ≡ some j)
unfolding own_target
own_target_cases false own j = inl refl
own_target_cases true none j = inl refl
own_target_cases true (some o) j = elim (Bool-cases (j == o)) [
  | inl same ↦ inr (rw same (ap some (sym ((==_iff j o).0 same))))
  | inr other ↦ inl (rw other refl)
]

own_target-some :
    (is_child : Bool) (own : Option ℕ) (j : ℕ)
    → is_child ≡ true
    → own ≡ some j
    → own_target is_child own (some j) ≡ some j
unfolding own_target
own_target-some is_child own j c o = rw (c, o, ==_refl j) refl

parent_target-some :
    (is_parent : Bool) (children : List ℕ) (j : ℕ)
    → is_parent ≡ true
    → member j children ≡ true
    → parent_target is_parent children (some j) ≡ pure j
unfolding parent_target
parent_target-some is_parent children j p m = rw (p, m) refl

target_or-some :
    (o : Option ℕ) (j : ℕ) (m : Exec Session ℕ)
    → (o ≡ some j) ⊎ ((o ≡ none) × (m ≡ pure j))
    → target_or o m ≡ pure j
unfolding target_or
target_or-some o j m (inl e) = rw e refl
target_or-some o j m (inr (e, f)) = rw (e, f) refl

-- A student whom the caller may view and asks for by id is the one that the portal goes on with.
resolve_target_student_complete :
    (user : User) (j : ℕ) (s : Session)
    → MayView s.pending user.id j
    → resolve_target_student user (some j) s ≡ (ok j, s)
unfolding resolve_target_student
resolve_target_student_complete user j s h =
    let names = role_names s.pending user.id in
    let own = resolve_student_for_user user.id s.pending in
    let children = resolve_children_ids user.id s.pending in
    let shown = own_target (has_role child names) own (some j) in
    let second = parent_target (has_role parent names) children (some j) in
    let branch : (shown ≡ some j) ⊎ ((shown ≡ none) × (second ≡ pure j)) = elim h [
      | inl (c, o) ↦ inl (own_target-some (has_role child names) own j c o)
      | inr (p, m) ↦ elim (own_target_cases (has_role child names) own j) [
        | inl passed ↦ inr (passed, parent_target-some (has_role parent names) children j p m)
        | inr returned ↦ inl returned
      ]
    ] in
    ap (λ (m : Exec Session ℕ). m s) (target_or-some shown j second branch)

own_target_forbidden :
    (is_child : Bool) (own : Option ℕ) (j : ℕ)
    → ¬ ((is_child ≡ true) × (own ≡ some j))
    → own_target is_child own (some j) ≡ none
own_target_forbidden is_child own j h = elim (own_target_cases is_child own j) [
  | inl passed ↦ passed
  | inr returned ↦ absurd (h (own_target_allowed is_child own (some j) j returned))
]

parent_target_forbidden :
    (is_parent : Bool) (children : List ℕ) (j : ℕ)
    → is_parent ≡ true
    → member j children ≡ false
    → parent_target is_parent children (some j) ≡ raise (http_exception 403)
unfolding parent_target
parent_target_forbidden is_parent children j p m = rw (p, m) refl

-- A parent who asks for a student whom the account may not view gets 403.
pub resolve_target_student_forbidden :
    (user : User) (j : ℕ) (s : Session)
    → has_role parent (role_names s.pending user.id) ≡ true
    → ¬ MayView s.pending user.id j
    → resolve_target_student user (some j) s ≡ (err (http_exception 403), s)
unfolding resolve_target_student target_or
resolve_target_student_forbidden user j s p h =
    let names = role_names s.pending user.id in
    let own = resolve_student_for_user user.id s.pending in
    let children = resolve_children_ids user.id s.pending in
    let not_own : own_target (has_role child names) own (some j) ≡ none =
      own_target_forbidden (has_role child names) own j (λ o. h (inl o)) in
    let not_child : member j children ≡ false = elim (Bool-cases (member j children)) [
      | inl m ↦ absurd (h (inr (p, m)))
      | inr m ↦ m
    ] in
    rw (not_own, parent_target_forbidden (has_role parent names) children j p not_child) refl
