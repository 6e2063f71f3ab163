-- ===== src/Seed/State.antt =====
-- The state of seed_demo.py: a session, and how many draws its `_rng` has made. What the seeded
-- generator answers to each draw is a parameter.
use sirius_vkr.Prelude.{
  ℕ, zero, suc, ◌≤◌, ◌<◌, ◌≡◌, Option, none, some, List, [], ◌∷◌, length, ltb, All,
}
use sirius_vkr.Exec.{Exec, Result, index_error, value_error, pure, or_raise, raise_if, ◌>>=◌, ◌>>◌}
use sirius_vkr.Database.{Db}
use sirius_vkr.Session.{Session}
use sirius_vkr.Session

-- random.Random(seed), the answer to a draw by the number of draws before it: randint is within its
-- bounds, choice is an index below the length, sample gives as many indices as are asked for, all
-- below the length.
pub record Random : Type 0 where
  pub randint : ℕ → ℕ → ℕ → ℕ
  pub choice : ℕ → ℕ → ℕ
  pub sample : ℕ → ℕ → ℕ → List ℕ
  pub randint_bounds : (k lo hi : ℕ) → lo ≤ hi → (lo ≤ randint k lo hi) × (randint k lo hi ≤ hi)
  pub choice_lt : (k n : ℕ) → 0 < n → choice k n < n
  pub sample_length : (k n m : ℕ) → m ≤ n → length (sample k n m) ≡ m
  pub sample_lt : (k n m : ℕ) → m ≤ n → All (λ (i : ℕ). i < n) (sample k n m)

pub record Seeder : Type 0 where
  pub session : Session
  pub draws : ℕ

-- A call that only uses the database.
abbrev pub in_session : {A : Type 0} → Exec Session A → Exec Seeder A
in_session m w = let (r, s) = m w.session in (r, record w { session = s })

-- One draw.
abbrev pub draw : {A : Type 0} → (ℕ → A) → Exec Seeder A
draw f w = (Result.ok (f w.draws), record w { draws = suc w.draws })

abbrev pub uuid4 : Exec Seeder ℕ
uuid4 = in_session Session.uuid4

abbrev pub now : Exec Seeder ℕ
now = in_session Session.now

abbrev pub query : {A : Type 0} → (Db → A) → Exec Seeder A
query f = in_session (Session.query f)

abbrev pub execute : (Db → Db) → Exec Seeder (Unit {0})
execute f = in_session (Session.execute f)

abbrev pub commit : Exec Seeder (Unit {0})
commit = in_session Session.commit

abbrev pub get_elem? : {A : Type 0} → List A → ℕ → Option A
get_elem? [] i = none
get_elem? (x ∷ xs) zero = some x
get_elem? (x ∷ xs) (suc i) = get_elem? xs i

-- The elements at some indices.
abbrev pub get_all : {A : Type 0} → List A → List ℕ → Option (List A)
get_all xs [] = some []
get_all xs (i ∷ is) = elim (get_elem? xs i) [
  | none ↦ none
  | some x ↦ elim (get_all xs is) [ none ↦ none | some ys ↦ some (x ∷ ys) ]
]

-- `for x in xs: f(x)`
abbrev pub for_each : {S A : Type 0} → List A → (A → Exec S (Unit {0})) → Exec S (Unit {0})
for_each [] f = pure tt
for_each (x ∷ xs) f = f x >> for_each xs f

-- The same loop where the rounds append to a list.
abbrev pub for_collect : {S A B : Type 0} → List A → (A → Exec S B) → Exec S (List B)
for_collect [] f = pure []
for_collect (x ∷ xs) f = do y ← f x; ys ← for_collect xs f; pure (y ∷ ys)

-- `for _ in range(n)`
abbrev pub repeat_collect : {S B : Type 0} → ℕ → Exec S B → Exec S (List B)
repeat_collect zero m = pure []
repeat_collect (suc n) m = do y ← m; ys ← repeat_collect n m; pure (y ∷ ys)

-- `enumerate(xs)`, from a number on.
abbrev pub enumerate : {A : Type 0} → ℕ → List A → List (ℕ × A)
enumerate n [] = []
enumerate n (x ∷ xs) = (n, x) ∷ enumerate (suc n) xs

module _ (random : Random) where
  -- `_rng.randint(lo, hi)`
  abbrev pub randint : ℕ → ℕ → Exec Seeder ℕ
  randint lo hi = draw (λ k. random.randint k lo hi)

  -- `_rng.choice(xs)`
  abbrev pub choice : {A : Type 0} → List A → Exec Seeder A
  choice xs = do i ← draw (λ k. random.choice k (length xs)); or_raise (get_elem? xs i) index_error

  -- `_rng.sample(xs, n)`
  abbrev pub sample : {A : Type 0} → List A → ℕ → Exec Seeder (List A)
  sample xs n = do
    raise_if (ltb (length xs) n) value_error
    is ← draw (λ k. random.sample k (length xs) n)
    or_raise (get_all xs is) index_error
