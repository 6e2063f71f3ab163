-- ===== src/Sql/Found.antt =====
-- Rows that EXISTS finds: by their own key, through WHERE and through a join.
use sirius_vkr.Prelude.{
  ℕ, ◌≡◌, refl, ◌∙◌, Bool, true, ◌&&◌, List, [], ◌∷◌, map, All, arith, ◌==◌, ==_refl, inl, inr,
  Bool-cases,
}
use sirius_vkr.Sql.{select, exists, inner_join}
use sirius_vkr.Sql.Laws.{exists-append, exists-map}

module _ {A : Type 0} where
  pub All-zip : (P Q : A → Type 0) (xs : List A) → All P xs → All Q xs → All (λ x. P x × Q x) xs
  All-zip P Q [] hp hq = tt
  All-zip P Q (x ∷ xs) hp hq = ((hp.0, hq.0), All-zip P Q xs hp.1 hq.1)

  found_later :
      (key : A → ℕ) (xs ys : List A) (y : A)
      → All (λ x. exists (λ z. key z == key x) ys ≡ true) xs
      → All (λ x. exists (λ z. key z == key x) (y ∷ ys) ≡ true) xs
  found_later key [] ys y h = tt
  found_later key (x ∷ xs) ys y h = (ground (arith, h.0), found_later key xs ys y h.1)

  -- Each row is found by its own key.
  pub found_self :
      (key : A → ℕ) (xs : List A) → All (λ x. exists (λ z. key z == key x) xs ≡ true) xs
  found_self key [] = tt
  found_self key (x ∷ xs) = (rw (==_refl (key x)) refl, found_later key xs xs x (found_self key xs))

  -- Each row is found by a test that it passes against itself, under a condition on it.
  exists_self_later :
      (C : A → Type 0) (R : A → A → Bool) (xs ys : List A) (y : A)
      → All (λ x. C x → exists (R x) ys ≡ true) xs
      → All (λ x. C x → exists (R x) (y ∷ ys) ≡ true) xs
  exists_self_later C R [] ys y h = tt
  exists_self_later C R (x ∷ xs) ys y h =
      (λ c. let found = h.0 c in ground (arith, found), exists_self_later C R xs ys y h.1)

  pub exists_self :
      (C : A → Type 0) (R : A → A → Bool) (xs : List A)
      → All (λ x. C x → R x x ≡ true) xs
      → All (λ x. C x → exists (R x) xs ≡ true) xs
  exists_self C R [] h = tt
  exists_self C R (x ∷ xs) h = (
    λ c. let same = h.0 c in ground (arith, same),
    exists_self_later C R xs xs x (exists_self C R xs h.1),
  )

  pub exists_ext :
      (p q : A → Bool) (xs : List A) → ((x : A) → p x ≡ q x) → exists p xs ≡ exists q xs
  exists_ext p q [] same = refl
  exists_ext p q (x ∷ xs) same = rw (same x, exists_ext p q xs same) refl

  pub exists_mono :
      (p q : A → Bool) (xs : List A)
      → ((x : A) → p x ≡ true → q x ≡ true)
      → exists p xs ≡ true
      → exists q xs ≡ true
  exists_mono p q [] f h = h
  exists_mono p q (x ∷ xs) f h = elim (Bool-cases (p x)) [
    | inl here ↦ let this = f x here in ground (arith, this)
    | inr there ↦ let rest = exists_mono p q xs f (ground (arith, h, there)) in ground (arith, rest)
  ]

  pub exists-select :
      (q p : A → Bool) (xs : List A) → exists q (select p xs) ≡ exists (λ x. p x && q x) xs
  exists-select q p [] = refl
  exists-select q p (x ∷ xs) = ground (arith, exists-select q p xs)

-- A row of a join is two rows that meet its condition.
pub exists-inner_join :
    {A B : Type 0} (q : A × B → Bool) (p : A → B → Bool) (xs : List A) (ys : List B)
    → exists q (inner_join p xs ys) ≡ exists (λ x. exists (λ y. p x y && q (x, y)) ys) xs
exists-inner_join q p [] ys = refl
exists-inner_join q p (x ∷ xs) ys =
    exists-append q (map (λ y. (x, y)) (select (p x) ys)) (inner_join p xs ys)
    ∙ rw
        (
          exists-map q (λ y. (x, y)) (select (p x) ys),
          exists-select (λ y. q (x, y)) (p x) ys,
          exists-inner_join q p xs ys,
        )
        refl
