-- ===== src/Exec/Laws.antt =====
-- A bind by the outcome of its first part.
use sirius_vkr.Prelude.{◌≡◌, refl, ap, ◌⊎◌, inl, inr}
use sirius_vkr.Exec.{Error, Result, ok, err, Exec, ◌>>=◌}

module _ {S A B : Type 0} where
  -- Either the first part raised and that is all, or the second ran on its result and its state.
  pub bind_cases :
      (m : Exec S A) (f : A → Exec S B) (s : S)
      → ((e : Error) × ((m s).0 ≡ err e) × ((m >>= f) s ≡ (err e, (m s).1)))
        ⊎ ((a : A) × ((m s).0 ≡ ok a) × ((m >>= f) s ≡ f a (m s).1))
  bind_cases m f s = by_outcome (m s).0 (m s).1
    where
      by_outcome :
          (r : Result A) (s' : S)
          → ((e : Error) × (r ≡ err e)
              × (◌≡◌ {A = Result B × S}
                  (elim r [ ok a ↦ f a s' | err e' ↦ (err e', s') ])
                  (err e, s')))
            ⊎ ((a : A) × (r ≡ ok a) × (elim r [ ok b ↦ f b s' | err e' ↦ (err e', s') ] ≡ f a s'))
      by_outcome (ok a) s' = inr (a, refl, refl)
      by_outcome (err e) s' = inl (e, refl, refl)

  -- A property of the state that each part keeps is kept by the bind.
  pub bind_keeps :
      (P : S → Type 0) (m : Exec S A) (f : A → Exec S B) (s : S)
      → P (m s).1
      → ((a : A) → P (m s).1 → P (f a (m s).1).1)
      → P ((m >>= f) s).1
  bind_keeps P m f s h k = by_outcome (m s).0 (m s).1 h k
    where
      by_outcome :
          (r : Result A) (s' : S)
          → P s'
          → ((a : A) → P s' → P (f a s').1)
          → (let t : Result B × S = elim r [ ok a ↦ f a s' | err e ↦ (err e, s') ] in P t.1)
      by_outcome (ok a) s' p q = q a p
      by_outcome (err e) s' p q = p

  -- The second part runs on the outcome of the first.
  pub bind_ok :
      (m : Exec S A) (f : A → Exec S B) (s s' : S) (a : A) → m s ≡ (ok a, s') → (m >>= f) s ≡ f a s'
  bind_ok m f s s' a h =
      ap
        (λ (t : Result A × S).
          let u : Result B × S = elim t.0 [ ok b ↦ f b t.1 | err e ↦ (err e, t.1) ] in u)
        h

  -- The first part's exception is the whole's.
  pub bind_err :
      (m : Exec S A) (f : A → Exec S B) (s s' : S) (e : Error)
      → m s ≡ (err e, s')
      → (m >>= f) s ≡ (err e, s')
  bind_err m f s s' e h =
      ap
        (λ (t : Result A × S).
          let u : Result B × S = elim t.0 [ ok b ↦ f b t.1 | err x ↦ (err x, t.1) ] in u)
        h
