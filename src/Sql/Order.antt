-- ===== src/Sql/Order.antt =====
-- ORDER BY returns the rows of its table, in order.
use sirius_vkr.Prelude.{
  ◌≡◌, refl, Bool, true, false, List, [], ◌∷◌, All, arith, suc, length, if_property,
}
use sirius_vkr.Sql.{exists, count_where, insert_by, order_by}

module _ {A : Type 0} (le : A → A → Bool) where
  -- Each row comes before the next one.
  abbrev pub IsOrdered : List A → Type 0
  IsOrdered [] = Unit
  IsOrdered (x ∷ []) = Unit
  IsOrdered (x ∷ y ∷ ys) = (le x y ≡ true) × IsOrdered (y ∷ ys)

  insert_by-IsOrdered :
      (total : (a b : A) → le a b ≡ false → le b a ≡ true) (x : A) (xs : List A)
      → IsOrdered xs
      → IsOrdered (insert_by le x xs)
  insert_by-IsOrdered total x [] h = tt
  insert_by-IsOrdered total x (y ∷ []) h = ground (arith, total x y)
  insert_by-IsOrdered total x (y ∷ z ∷ zs) h =
      ground (arith, total x y, insert_by-IsOrdered total x (z ∷ zs) h.1)

  -- Under a total comparison the rows come in order.
  pub order_by-IsOrdered :
      (total : (a b : A) → le a b ≡ false → le b a ≡ true) (xs : List A)
      → IsOrdered (order_by le xs)
  order_by-IsOrdered total [] = tt
  order_by-IsOrdered total (x ∷ xs) =
      insert_by-IsOrdered total x (order_by le xs) (order_by-IsOrdered total xs)

  count_where-insert_by :
      (p : A → Bool) (x : A) (xs : List A)
      → count_where p (insert_by le x xs) ≡ count_where p (x ∷ xs)
  count_where-insert_by p x [] = refl
  count_where-insert_by p x (y ∷ ys) = ground (arith, count_where-insert_by p x ys)

  -- A test finds as many rows as before.
  pub count_where-order_by :
      (p : A → Bool) (xs : List A) → count_where p (order_by le xs) ≡ count_where p xs
  count_where-order_by p [] = refl
  count_where-order_by p (x ∷ xs) =
      ground (arith, count_where-insert_by p x (order_by le xs), count_where-order_by p xs)

  exists-insert_by :
      (p : A → Bool) (x : A) (xs : List A) → exists p (insert_by le x xs) ≡ exists p (x ∷ xs)
  exists-insert_by p x [] = refl
  exists-insert_by p x (y ∷ ys) = ground (arith, exists-insert_by p x ys)

  pub exists-order_by : (p : A → Bool) (xs : List A) → exists p (order_by le xs) ≡ exists p xs
  exists-order_by p [] = refl
  exists-order_by p (x ∷ xs) =
      ground (arith, exists-insert_by p x (order_by le xs), exists-order_by p xs)

  length-insert_by : (x : A) (xs : List A) → length (insert_by le x xs) ≡ suc (length xs)
  length-insert_by x [] = refl
  length-insert_by x (y ∷ ys) = ground (arith, length-insert_by x ys)

  pub length-order_by : (xs : List A) → length (order_by le xs) ≡ length xs
  length-order_by [] = refl
  length-order_by (x ∷ xs) = ground (arith, length-insert_by x (order_by le xs), length-order_by xs)

  All-insert_by :
      (P : A → Type 0) (x : A) (xs : List A) → P x → All P xs → All P (insert_by le x xs)
  All-insert_by P x [] px h = (px, tt)
  All-insert_by P x (y ∷ ys) px h =
      if_property (All P) (le x y) (x ∷ y ∷ ys) (y ∷ insert_by le x ys) (λ _. (px, h))
        (λ _. (h.0, All-insert_by P x ys px h.1))

  -- What holds of every row of the table holds of every row of the result.
  pub All-order_by : (P : A → Type 0) (xs : List A) → All P xs → All P (order_by le xs)
  All-order_by P [] h = tt
  All-order_by P (x ∷ xs) h = All-insert_by P x (order_by le xs) h.0 (All-order_by P xs h.1)
