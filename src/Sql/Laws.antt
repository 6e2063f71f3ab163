-- ===== src/Sql/Laws.antt =====
-- Laws of the clauses of Sql.antt: appended rows, updated rows, and rows that a test finds.
use mathlib.Core.Bool.{false≢true}
use sirius_vkr.Prelude.{
  ℕ, ◌+◌, ◌≤◌, ◌≡◌, refl, Bool, true, false, ◌||◌, some, List, [], ◌∷◌, ◌++◌, map, length, All,
  arith, ltb, is_some, inl, inr, Bool-cases, if_property, Option-cases, sym, ap, ◌∙◌,
}
use sirius_vkr.Sql.{select, exists, count_where, first, update_where, inner_join, member}

module _ {A : Type 0} (p : A → Bool) where
  pub exists-append : (xs ys : List A) → exists p (xs ++ ys) ≡ (exists p xs || exists p ys)
  exists-append [] ys = refl
  exists-append (x ∷ xs) ys = ground (arith, exists-append xs ys)

  pub count_where-append :
      (xs ys : List A) → count_where p (xs ++ ys) ≡ count_where p xs + count_where p ys
  count_where-append [] ys = omega arith
  count_where-append (x ∷ xs) ys = ground (arith, count_where-append xs ys)

  pub select-append : (xs ys : List A) → select p (xs ++ ys) ≡ select p xs ++ select p ys
  select-append [] ys = refl
  select-append (x ∷ xs) ys = ground (arith, select-append xs ys)

  -- A row is found exactly when one exists.
  pub is_some-first : (xs : List A) → is_some (first p xs) ≡ exists p xs
  is_some-first [] = refl
  is_some-first (x ∷ xs) = ground (arith, is_some-first xs)

  -- The row that is found passes the test.
  pub first-test : (xs : List A) (a : A) → first p xs ≡ some a → p a ≡ true
  first-test [] a h = cc
  first-test (x ∷ xs) a h = ground (arith, first-test xs a)

  -- A row that exists is found.
  pub first_found :
      (xs : List A) → exists p xs ≡ true → (a : A) × (first p xs ≡ some a) × (p a ≡ true)
  first_found xs h = elim (Option-cases (first p xs)) [
    | inl nothing ↦ absurd (false≢true (sym (ap is_some nothing) ∙ is_some-first xs ∙ h))
    | inr (a, e) ↦ (a, e, first-test xs a e)
  ]

  -- A new row is found behind rows of which none is.
  pub first-append_none : (xs ys : List A) → exists p xs ≡ false → first p (xs ++ ys) ≡ first p ys
  first-append_none [] ys h = refl
  first-append_none (x ∷ xs) ys h = ground (arith, first-append_none xs ys)

  pub count_where_pos : (xs : List A) → ltb 0 (count_where p xs) ≡ exists p xs
  count_where_pos [] = refl
  count_where_pos (x ∷ xs) = ground (arith, count_where_pos xs)

  pub count_where-le-length : (xs : List A) → count_where p xs ≤ length xs
  count_where-le-length [] = omega arith
  count_where-le-length (x ∷ xs) = ground (arith, count_where-le-length xs)

  -- An UPDATE that finds no row changes none.
  pub update_where_none : (f : A → A) (xs : List A) → exists p xs ≡ false → update_where p f xs ≡ xs
  update_where_none f [] h = refl
  update_where_none f (x ∷ xs) h = ground (arith, update_where_none f xs)

  -- An UPDATE keeps an invariant of the rows that its assignment keeps.
  pub All-update_where :
      (P : A → Type 0) (f : A → A) (xs : List A)
      → ((a : A) → p a ≡ true → P a → P (f a))
      → All P xs
      → All P (update_where p f xs)
  All-update_where P f [] keep h = tt
  All-update_where P f (x ∷ xs) keep h =
      (if_property P (p x) (f x) x (λ e. keep x e h.0) (λ _. h.0), All-update_where P f xs keep h.1)

  -- A row that no new test reads keeps what another test says of it.
  pub exists-update_where :
      (q : A → Bool) (f : A → A) (xs : List A)
      → ((a : A) → q (f a) ≡ q a)
      → exists q (update_where p f xs) ≡ exists q xs
  exists-update_where q f [] same = refl
  exists-update_where q f (x ∷ xs) same = ground (arith, same x, exists-update_where q f xs same)

module _ {A : Type 0} (P : A → Type 0) where
  pub All-append : (xs ys : List A) → All P xs → All P ys → All P (xs ++ ys)
  All-append [] ys hx hy = hy
  All-append (x ∷ xs) ys hx hy = (hx.0, All-append xs ys hx.1 hy)

  -- What holds of every row holds of the row that is found.
  pub All-first : (p : A → Bool) (xs : List A) (a : A) → All P xs → first p xs ≡ some a → P a
  All-first p [] a h e = absurd (cc)
  All-first p (x ∷ xs) a h e = elim (Bool-cases (p x)) [
    | inl here ↦ let same : x ≡ a = ground arith in rw same at h.0
    | inr there ↦ All-first p xs a h.1 (ground arith)
  ]

  pub All-select : (p : A → Bool) (xs : List A) → All P xs → All P (select p xs)
  All-select p [] h = tt
  All-select p (x ∷ xs) h =
      if_property (All P) (p x) (x ∷ select p xs) (select p xs) (λ _. (h.0, All-select p xs h.1))
        (λ _. All-select p xs h.1)

pub All-weaken :
    {A : Type 0} (P Q : A → Type 0) (xs : List A) → ((a : A) → P a → Q a) → All P xs → All Q xs
All-weaken P Q [] f h = tt
All-weaken P Q (x ∷ xs) f h = (f x h.0, All-weaken P Q xs f h.1)

pub All-map :
    {A B : Type 0} (Q : B → Type 0) (f : A → B) (xs : List A)
    → All (λ a. Q (f a)) xs
    → All Q (map f xs)
All-map Q f [] h = tt
All-map Q f (x ∷ xs) h = (h.0, All-map Q f xs h.1)

-- WHERE leaves nothing where its test fails on every row.
pub select_none :
    {A : Type 0} (p : A → Bool) (xs : List A) → All (λ x. p x ≡ false) xs → select p xs ≡ []
select_none p [] h = refl
select_none p (x ∷ xs) h = rw h.0 (select_none p xs h.1)

-- A row that is found still is when rows are written over by ones that pass the test alike.
pub exists-map :
    {A B : Type 0} (q : B → Bool) (f : A → B) (xs : List A)
    → exists q (map f xs) ≡ exists (λ a. q (f a)) xs
exists-map q f [] = refl
exists-map q f (x ∷ xs) = ground (arith, exists-map q f xs)

All-const : {A B : Type 0} (P : A → Type 0) (x : A) (ys : List B) → P x → All (λ _. P x) ys
All-const P x [] h = tt
All-const P x (y ∷ ys) h = (h, All-const P x ys h)

-- The rows that WHERE selects pass its test.
pub select-All : {A : Type 0} (p : A → Bool) (xs : List A) → All (λ x. p x ≡ true) (select p xs)
select-All p [] = tt
select-All p (x ∷ xs) =
    if_property (All (λ y. p y ≡ true)) (p x) (x ∷ select p xs) (select p xs)
      (λ e. (e, select-All p xs)) (λ _. select-All p xs)

-- So does what held of all of them.
pub select-All_with :
    {A : Type 0} (P : A → Type 0) (p : A → Bool) (xs : List A)
    → All P xs
    → All (λ x. (p x ≡ true) × P x) (select p xs)
select-All_with P p [] h = tt
select-All_with P p (x ∷ xs) h =
    if_property (All (λ y. (p y ≡ true) × P y)) (p x) (x ∷ select p xs) (select p xs)
      (λ e. ((e, h.0), select-All_with P p xs h.1)) (λ _. select-All_with P p xs h.1)

module _ {A B : Type 0} (p : A → B → Bool) where
  paired :
      (x : A) (ys : List B)
      → All (λ (row : A × B). p row.0 row.1 ≡ true) (map (λ y. (x, y)) (select (p x) ys))
  paired x ys =
      All-map (λ (row : A × B). p row.0 row.1 ≡ true) (λ y. (x, y)) (select (p x) ys)
        (select-All (p x) ys)

  -- The rows of a join meet its condition.
  pub inner_join-All :
      (xs : List A) (ys : List B) → All (λ (row : A × B). p row.0 row.1 ≡ true) (inner_join p xs ys)
  inner_join-All [] ys = tt
  inner_join-All (x ∷ xs) ys =
      All-append (λ (row : A × B). p row.0 row.1 ≡ true) (map (λ y. (x, y)) (select (p x) ys))
        (inner_join p xs ys) (paired x ys) (inner_join-All xs ys)

  -- What holds of the rows on the left holds of the left parts of a join.
  pub inner_join-All_left :
      (P : A → Type 0) (xs : List A) (ys : List B)
      → All P xs
      → All (λ (row : A × B). P row.0) (inner_join p xs ys)
  inner_join-All_left P [] ys h = tt
  inner_join-All_left P (x ∷ xs) ys h =
      All-append (λ (row : A × B). P row.0) (map (λ y. (x, y)) (select (p x) ys))
        (inner_join p xs ys)
        (All-map (λ (row : A × B). P row.0) (λ y. (x, y)) (select (p x) ys)
          (All-const P x (select (p x) ys) h.0))
        (inner_join-All_left P xs ys h.1)

All-member :
    (xs ys : List ℕ) (y : ℕ)
    → All (λ x. member x ys ≡ true) xs
    → All (λ x. member x (y ∷ ys) ≡ true) xs
All-member [] ys y h = tt
All-member (x ∷ xs) ys y h = (ground (arith, h.0), All-member xs ys y h.1)

-- A list has its own members.
pub member_self : (xs : List ℕ) → All (λ x. member x xs ≡ true) xs
member_self [] = tt
member_self (x ∷ xs) = (ground arith, All-member xs xs x (member_self xs))

-- Where no row passes the test, each row fails it.
pub exists_none :
    {A : Type 0} (p : A → Bool) (xs : List A) → exists p xs ≡ false → All (λ x. p x ≡ false) xs
exists_none p [] h = tt
exists_none p (x ∷ xs) h = (ground (arith, h), exists_none p xs (ground (arith, h)))
