-- ===== src/Learning/Groups/Transfer/Rows.antt =====
-- Enrollments before and after some were moved to another group and some were added.
use sirius_vkr.Prelude.{ℕ, ◌≡◌, refl, List, [], ◌∷◌, ◌++◌, All, ◌==◌, if_property}
use sirius_vkr.Sql.{update_where}
use sirius_vkr.Sql.Laws.{All-append}
use sirius_vkr.Models.Learning.{Enrollment, active}

-- `b` is `a`, in the same or another group.
abbrev pub SameButGroup : Enrollment → Enrollment → Type 0
SameButGroup a b =
    (b.id ≡ a.id)
    × (b.student_id ≡ a.student_id)
    × (b.status ≡ a.status)
    × (b.progress ≡ a.progress)
    × (b.enrolled_at ≡ a.enrolled_at)

abbrev pub IsNew : Enrollment → Type 0
IsNew e = (e.status ≡ active) × (e.progress ≡ 0)

-- The old rows in their order, each the same but for its group, and new rows behind them.
abbrev pub Extends : List Enrollment → List Enrollment → Type 0
Extends [] new_rows = All IsNew new_rows
Extends (x ∷ xs) [] = ⊥
Extends (x ∷ xs) (y ∷ ys) = SameButGroup x y × Extends xs ys

pub Extends-refl : (xs : List Enrollment) → Extends xs xs
Extends-refl [] = tt
Extends-refl (x ∷ xs) = ((refl, refl, refl, refl, refl), Extends-refl xs)

pub Extends-append :
    (xs ys : List Enrollment) (e : Enrollment) → Extends xs ys → IsNew e → Extends xs (ys ++ e ∷ [])
Extends-append [] ys e h n = All-append IsNew ys (e ∷ []) h (n, tt)
Extends-append (x ∷ xs) [] e h n = absurd h
Extends-append (x ∷ xs) (y ∷ ys) e h n = (h.0, Extends-append xs ys e h.1 n)

All-IsNew-move :
    (eid gid : ℕ) (ys : List Enrollment)
    → All IsNew ys
    → All IsNew (update_where (λ e. e.id == eid) (λ e. record e { group_id = gid }) ys)
All-IsNew-move eid gid [] h = tt
All-IsNew-move eid gid (y ∷ ys) h = (
  if_property IsNew (y.id == eid) (record y { group_id = gid }) y (λ _. h.0) (λ _. h.0),
  All-IsNew-move eid gid ys h.1,
)

pub Extends-move :
    (xs ys : List Enrollment) (eid gid : ℕ)
    → Extends xs ys
    → Extends xs (update_where (λ e. e.id == eid) (λ e. record e { group_id = gid }) ys)
Extends-move [] ys eid gid h = All-IsNew-move eid gid ys h
Extends-move (x ∷ xs) [] eid gid h = h
Extends-move (x ∷ xs) (y ∷ ys) eid gid h = (
  if_property (SameButGroup x) (y.id == eid) (record y { group_id = gid }) y (λ _. h.0) (λ _. h.0),
  Extends-move xs ys eid gid h.1,
)
