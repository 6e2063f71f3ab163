-- ===== src/Synthetic/Choices.antt =====
-- Parts of tools/gen_synthetic_data.py that return, with a property of what they return.
use mathlib.Core.Path.{subst}
use sirius_vkr.Prelude.{
  ℕ, zero, suc, ◌<◌, ◌≡◌, refl, sym, some, List, [], ◌∷◌, length, All, arith, inl, inr,
}
use sirius_vkr.Exec.{Exec, Result, ok, pure, ◌>>=◌}
use sirius_vkr.Exec.Laws.{bind_cases}
use sirius_vkr.Seed.State.{get_elem?}
use sirius_vkr.Synthetic.{Source, Run, draw, choice}

-- From any state the part returns a value with the property.
pub record Gives {A : Type 0} (Q : A → Type 0) (m : Exec Run A) : Type 0 where
  pub gives : (w : Run) → (a : A) × ((m w).0 ≡ ok a) × Q a

module _ {A B : Type 0} where
  pub bind-Gives :
      (P : A → Type 0) (Q : B → Type 0) (m : Exec Run A) (f : A → Exec Run B)
      → Gives P m
      → ((a : A) → P a → Gives Q (f a))
      → Gives Q (m >>= f)
  bind-Gives P Q m f g h = record {
    gives = λ w.
        let (x, returned, property) = g.gives w in
        elim (bind_cases m f w) [
          | inl (e, raised, whole) ↦ absurd (cc)
          | inr (a, same, whole) ↦
              let equal : x ≡ a = cc in
              subst (λ (t : Result B × Run). (b : B) × (t.0 ≡ ok b) × Q b) (sym whole)
                ((h a (subst P equal property)).gives (m w).1)
        ];
  }

module _ {A : Type 0} where
  pub pure-Gives : (Q : A → Type 0) (a : A) → Q a → Gives Q (pure a)
  pure-Gives Q a q = record { gives = λ w. (a, refl, q) }

  pub draw-Gives : (Q : A → Type 0) (f : ℕ → A) → ((k : ℕ) → Q (f k)) → Gives Q (draw f)
  draw-Gives Q f h = record { gives = λ w. (f w.draws, refl, h w.draws) }

  chosen_lt :
      (Q : A → Type 0) (xs : List A) (i : ℕ)
      → All Q xs
      → i < length xs
      → (a : A) × (get_elem? xs i ≡ some a) × Q a
  chosen_lt Q [] i h lt = absurd (omega arith)
  chosen_lt Q (x ∷ xs) zero (h, hs) lt = (x, refl, h)
  chosen_lt Q (x ∷ xs) (suc i) (h, hs) lt = chosen_lt Q xs i hs (omega arith)

  -- A choice from a list that is not empty gives what all elements have.
  pub choice-Gives :
      (source : Source) (Q : A → Type 0) (xs : List A)
      → All Q xs
      → 0 < length xs
      → Gives Q (choice source xs)
  unfolding choice
  choice-Gives source Q xs h given = record {
    gives = λ w.
        let (a, found, property) =
          chosen_lt Q xs (source.choice w.draws (length xs)) h
            (source.choice_lt w.draws (length xs) given) in
        (a, rw found refl, property);
  }

pub weaken-Gives :
    {A : Type 0} (P Q : A → Type 0) (m : Exec Run A) → Gives P m → ((a : A) → P a → Q a) → Gives Q m
weaken-Gives P Q m g h = record {
  gives = λ w. let (a, returned, p) = g.gives w in (a, returned, h a p);
}
