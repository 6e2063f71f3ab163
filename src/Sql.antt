-- ===== src/Sql.antt =====
-- The clauses of the SQL statements in the services, over a table as the list of its rows:
-- WHERE, EXISTS, count(*), UPDATE ... WHERE with its row count, DISTINCT and ORDER BY.
pub mod Laws
pub mod Order
pub mod Found
use sirius_vkr.Prelude.{
  ℕ, suc, ◌+◌, ◌*◌, ◌/◌, Bool, false, ◌||◌, String, Option, none, some, List, [], ◌∷◌, ◌++◌, map,
  length, ◌==◌, str_eq, if◌then◌else◌,
}

module _ {A : Type 0} where
  -- SELECT ... WHERE p
  abbrev pub select : (A → Bool) → List A → List A
  select p [] = []
  select p (x ∷ xs) = let rest = select p xs in if p x then x ∷ rest else rest

  -- EXISTS (SELECT 1 ... WHERE p)
  abbrev pub exists : (A → Bool) → List A → Bool
  exists p [] = false
  exists p (x ∷ xs) = p x || exists p xs

  -- count(*) ... WHERE p
  abbrev pub count_where : (A → Bool) → List A → ℕ
  count_where p [] = 0
  count_where p (x ∷ xs) = let rest = count_where p xs in if p x then suc rest else rest

  -- The first row, or none: scalar_one_or_none of a unique match, `next(..., None)`, LIMIT 1.
  abbrev pub first : (A → Bool) → List A → Option A
  first p [] = none
  first p (x ∷ xs) = let rest = first p xs in if p x then some x else rest

  -- UPDATE ... SET f WHERE p
  abbrev pub update_where : (A → Bool) → (A → A) → List A → List A
  update_where p f [] = []
  update_where p f (x ∷ xs) = (if p x then f x else x) ∷ update_where p f xs

  -- DELETE ... WHERE p
  abbrev pub delete_where : (A → Bool) → List A → List A
  delete_where p [] = []
  delete_where p (x ∷ xs) = let rest = delete_where p xs in if p x then rest else x ∷ rest

  abbrev pub insert_by : (A → A → Bool) → A → List A → List A
  insert_by le x [] = x ∷ []
  insert_by le x (y ∷ ys) = let rest = insert_by le x ys in if le x y then x ∷ y ∷ ys else y ∷ rest

  -- ORDER BY, rows that tie staying in table order
  abbrev pub order_by : (A → A → Bool) → List A → List A
  order_by le [] = []
  order_by le (x ∷ xs) = insert_by le x (order_by le xs)

-- x = ANY(xs), `x in xs`
abbrev pub member : ℕ → List ℕ → Bool
member x [] = false
member x (y ∷ ys) = x == y || member x ys

-- DISTINCT, `set(...)`
abbrev pub distinct : List ℕ → List ℕ
distinct [] = []
distinct (x ∷ xs) = let rest = distinct xs in if member x xs then rest else x ∷ rest

-- `column = value`, which is not true of NULL
abbrev pub eq_null : Option ℕ → ℕ → Bool
eq_null none k = false
eq_null (some j) k = j == k

-- The same for text.
abbrev pub eq_null_text : Option String → String → Bool
eq_null_text none t = false
eq_null_text (some s) t = str_eq s t

-- DISTINCT over text
abbrev pub member_text : String → List String → Bool
member_text s [] = false
member_text s (t ∷ ts) = str_eq s t || member_text s ts

abbrev pub distinct_text : List String → List String
distinct_text [] = []
distinct_text (s ∷ ss) = let rest = distinct_text ss in if member_text s ss then rest else s ∷ rest

-- The values of a column that are not NULL, as count(column) and the aggregates read it.
abbrev pub not_null : {A : Type 0} → List (Option A) → List A
not_null [] = []
not_null (none ∷ xs) = not_null xs
not_null (some x ∷ xs) = x ∷ not_null xs

abbrev pub sum : List ℕ → ℕ
sum [] = 0
sum (x ∷ xs) = x + sum xs

-- COALESCE(round(avg(column))::int, 0): to the nearest integer, halves up.
abbrev pub round_avg : List ℕ → ℕ
round_avg [] = 0
round_avg (x ∷ xs) = (2 * sum (x ∷ xs) + length (x ∷ xs)) / (2 * length (x ∷ xs))

module _ {A B : Type 0} where
  -- A JOIN B ON p
  abbrev pub inner_join : (A → B → Bool) → List A → List B → List (A × B)
  inner_join p [] ys = []
  inner_join p (x ∷ xs) ys = map (λ y. (x, y)) (select (p x) ys) ++ inner_join p xs ys

  -- The rows of one left row: a row with NULLs where nothing matches.
  abbrev pub padded : A → List B → List (A × Option B)
  padded x [] = (x, none) ∷ []
  padded x (y ∷ ys) = map (λ z. (x, some z)) (y ∷ ys)

  -- A LEFT JOIN B ON p
  abbrev pub left_join : (A → B → Bool) → List A → List B → List (A × Option B)
  left_join p [] ys = []
  left_join p (x ∷ xs) ys = padded x (select (p x) ys) ++ left_join p xs ys
