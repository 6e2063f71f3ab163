-- ===== src/Exec.antt =====
-- Methods that change a state and may raise. What was written before a raise stays written, so
-- the state comes back beside the exception too.
pub mod Laws
use sirius_vkr.Prelude.{ℕ, Bool, Option, none, some, String, if◌then◌else◌}

-- The exceptions of the program: the two service errors, `HTTPException` by its status code, and
-- those of SQLAlchemy and its driver, Redis and Python that the program raises, catches or lets through.
pub data Error : Type 0 where
  auth_error learning_error : String → Error
  http_exception : ℕ → Error
  integrity_error no_result_found connection_error jwt_error redis_error runtime_error value_error
        index_error :
      Error

pub data Result (A : Type 0) : Type 0 where
  ok : A → Result A
  err : Error → Result A

abbrev pub Exec : Type 0 → Type 0 → Type 0
Exec S A = S → Result A × S

module _ {S A : Type 0} where
  abbrev pub pure : A → Exec S A
  pure a s = (ok a, s)

  abbrev pub raise : Error → Exec S A
  raise e s = (err e, s)

  abbrev pub gets : (S → A) → Exec S A
  gets f s = (ok (f s), s)

  abbrev pub or_raise : Option A → Error → Exec S A
  or_raise none e = raise e
  or_raise (some a) _ = pure a

  -- try: m, except: handler
  abbrev pub try_catch : Exec S A → (Error → Exec S A) → Exec S A
  try_catch m handler s = let (r, s') = m s in elim r [ ok a ↦ (ok a, s') | err e ↦ handler e s' ]

infixl 5 ◌>>=◌ ◌>>◌
abbrev pub ◌>>=◌ : {S A B : Type 0} → Exec S A → (A → Exec S B) → Exec S B
◌>>=◌ m f s = let (r, s') = m s in elim r [ ok a ↦ f a s' | err e ↦ raise e s' ]

abbrev pub ◌>>◌ : {S A B : Type 0} → Exec S A → Exec S B → Exec S B
m >> k = m >>= λ _. k

abbrev pub modify : {S : Type 0} → (S → S) → Exec S (Unit {0})
modify f s = (ok tt, f s)

abbrev pub raise_if : {S : Type 0} → Bool → Error → Exec S (Unit {0})
raise_if c e s = (if c then err e else ok tt, s)
