-- ===== src/Seed/Returns.antt =====
-- seed_demo.py raises nothing where the roles exist: steps that return.
use mathlib.Core.Path.{subst}
use sirius_vkr.Prelude.{
  ℕ, zero, suc, ◌≤◌, ◌<◌, ◌≡◌, refl, sym, ap, ◌∙◌, Bool, true, false, Option, none, some, List, [],
  ◌∷◌, length, ltb, arith, All, inl, inr,
}
use sirius_vkr.Models.Access.{child, parent, teacher}
use sirius_vkr.Database.{Db}
use sirius_vkr.Exec.{
  Exec, Error, Result, ok, pure, or_raise, raise_if, index_error, value_error, ◌>>=◌,
}
use sirius_vkr.Exec.Laws.{bind_cases}
use sirius_vkr.Auth.Service.{unknown_role}
use sirius_vkr.Seed.State.{
  Random, Seeder, uuid4, now, query, execute, commit, draw, for_each, for_collect, repeat_collect,
  get_elem?, get_all, randint, choice, sample,
}

-- Every role of core.roles that the seed asks for is there, once.
pub record HasRoles (db : Db) : Type 0 where
  pub has_teacher : unknown_role (teacher ∷ []) db ≡ false
  pub has_child : unknown_role (child ∷ []) db ≡ false
  pub has_parent : unknown_role (parent ∷ []) db ≡ false

-- The outcome is a result with a property, and the roles are still there.
pub record Outcome {A : Type 0} (Q : A → Type 0) (t : Result A × Seeder) : Type 0 where
  pub value : A
  pub returned : t.0 ≡ ok value
  pub property : Q value
  pub roles_left : HasRoles t.1.session.pending

-- Where the roles exist the step returns, a result with the property.
pub record ReturnsWith {A : Type 0} (Q : A → Type 0) (m : Exec Seeder A) : Type 0 where
  pub outcome : (w : Seeder) → HasRoles w.session.pending → Outcome Q (m w)

-- The same of any result.
abbrev pub Returns : {A : Type 0} → Exec Seeder A → Type 0
Returns m = ReturnsWith (λ _. Unit {0}) m

module _ {A B : Type 0} where
  pub bind-ReturnsWith :
      (P : A → Type 0) (Q : B → Type 0) (m : Exec Seeder A) (f : A → Exec Seeder B)
      → ReturnsWith P m
      → ((a : A) → P a → ReturnsWith Q (f a))
      → ReturnsWith Q (m >>= f)
  bind-ReturnsWith P Q m f g h = record {
    outcome = λ w roles.
        let o = g.outcome w roles in
        elim (bind_cases m f w) [
          | inl (e, raised, whole) ↦ let r = o.returned in absurd (cc)
          | inr (a, returned, whole) ↦
              let r = o.returned in
              let same : o.value ≡ a = cc in
              subst (Outcome Q) (sym whole)
                ((h a (subst P same o.property)).outcome (m w).1 o.roles_left)
        ];
  }

  pub bind-Returns :
      (m : Exec Seeder A) (f : A → Exec Seeder B)
      → Returns m
      → ((a : A) → Returns (f a))
      → Returns (m >>= f)
  bind-Returns m f g h = bind-ReturnsWith (λ _. Unit {0}) (λ _. Unit {0}) m f g (λ a _. h a)

pub HasRoles-same : (db db' : Db) → db'.roles ≡ db.roles → HasRoles db → HasRoles db'
unfolding unknown_role
HasRoles-same db db' e h = record {
  has_teacher = rw e h.has_teacher;
  has_child = rw e h.has_child;
  has_parent = rw e h.has_parent;
}

module _ {A : Type 0} where
  pub forget-Returns : (Q : A → Type 0) (m : Exec Seeder A) → ReturnsWith Q m → Returns m
  forget-Returns Q m h = record {
    outcome = λ w roles.
        let o = h.outcome w roles in
        record { value = o.value; returned = o.returned; property = tt; roles_left = o.roles_left };
  }

  pub pure-ReturnsWith : (Q : A → Type 0) (a : A) → Q a → ReturnsWith Q (pure a)
  pure-ReturnsWith Q a q = record {
    outcome = λ w roles. record { value = a; returned = refl; property = q; roles_left = roles };
  }

  pub pure-Returns : (a : A) → Returns (pure a)
  pure-Returns a = pure-ReturnsWith (λ _. Unit {0}) a tt

  pub draw-ReturnsWith : (Q : A → Type 0) (f : ℕ → A) → ((k : ℕ) → Q (f k)) → ReturnsWith Q (draw f)
  draw-ReturnsWith Q f h = record {
    outcome = λ w roles. record {
      value = f w.draws;
      returned = refl;
      property = h w.draws;
      roles_left = roles;
    };
  }

  pub draw-Returns : (f : ℕ → A) → Returns (draw f)
  draw-Returns f = record {
    outcome =
        λ w roles. record { value = f w.draws; returned = refl; property = tt; roles_left = roles };
  }

  pub query-Returns : (f : Db → A) → Returns (query f)
  query-Returns f = record {
    outcome = λ w roles. record {
      value = f w.session.pending;
      returned = refl;
      property = tt;
      roles_left = roles;
    };
  }

  -- A lookup that finds something.
  found-ReturnsWith :
      (Q : A → Type 0) (o : Option A) (e : Error) (a : A)
      → o ≡ some a
      → Q a
      → ReturnsWith Q (or_raise o e)
  found-ReturnsWith Q o e a h q =
      subst (λ (o : Option A). ReturnsWith Q (or_raise o e)) (sym h) (pure-ReturnsWith Q a q)

  get_elem?_lt : (xs : List A) (i : ℕ) → i < length xs → (a : A) × (get_elem? xs i ≡ some a)
  get_elem?_lt [] i h = absurd (omega arith)
  get_elem?_lt (x ∷ xs) zero h = (x, refl)
  get_elem?_lt (x ∷ xs) (suc i) h = get_elem?_lt xs i (omega arith)

  pub elem-Returns :
      (xs : List A) (i : ℕ) → i < length xs → Returns (or_raise (get_elem? xs i) index_error)
  elem-Returns xs i h =
      let (a, found) = get_elem?_lt xs i h in
      found-ReturnsWith (λ _. Unit {0}) (get_elem? xs i) index_error a found tt

  get_all_lt :
      (xs : List A) (is : List ℕ)
      → All (λ (i : ℕ). i < length xs) is
      → (ys : List A) × (get_all xs is ≡ some ys) × (length ys ≡ length is)
  get_all_lt xs [] h = ([], refl, refl)
  get_all_lt xs (i ∷ is) (h, hs) =
      let (x, one) = get_elem?_lt xs i h in
      let (ys, all, same) = get_all_lt xs is hs in
      (x ∷ ys, rw (get_all, one, all) refl, ap suc same)

pub uuid4-Returns : Returns uuid4
uuid4-Returns = record {
  outcome = λ w roles. record {
    value = w.session.fresh w.session.drawn;
    returned = refl;
    property = tt;
    roles_left = roles;
  };
}

pub now-Returns : Returns now
now-Returns = record {
  outcome = λ w roles. record {
    value = w.session.clock;
    returned = refl;
    property = tt;
    roles_left = roles;
  };
}

pub commit-Returns : Returns commit
commit-Returns = record {
  outcome = λ w roles. record { value = tt; returned = refl; property = tt; roles_left = roles };
}

pub execute-Returns : (f : Db → Db) → ((db : Db) → (f db).roles ≡ db.roles) → Returns (execute f)
execute-Returns f h = record {
  outcome = λ w roles. record {
    value = tt;
    returned = refl;
    property = tt;
    roles_left = HasRoles-same w.session.pending (f w.session.pending) (h w.session.pending) roles;
  };
}

pub enough-Returns : (c : Bool) (e : Error) → c ≡ false → Returns (raise_if {S = Seeder} c e)
enough-Returns c e h =
    subst (λ (c : Bool). Returns (raise_if {S = Seeder} c e)) (sym h) (pure-Returns tt)

module _ (random : Random) where
  pub randint-ReturnsWith :
      (lo hi : ℕ) → lo ≤ hi → ReturnsWith (λ n. (lo ≤ n) × (n ≤ hi)) (randint random lo hi)
  randint-ReturnsWith lo hi h = record {
    outcome = λ w roles. record {
      value = random.randint w.draws lo hi;
      returned = refl;
      property = random.randint_bounds w.draws lo hi h;
      roles_left = roles;
    };
  }

  pub choice-Returns : {A : Type 0} (xs : List A) → 0 < length xs → Returns (choice random xs)
  choice-Returns xs h =
      bind-ReturnsWith (λ i. i < length xs) _ (draw (λ k. random.choice k (length xs))) _
        (draw-ReturnsWith (λ i. i < length xs) (λ k. random.choice k (length xs))
          (λ k. random.choice_lt k (length xs) h))
        (elem-Returns xs)

  pub sample-ReturnsWith :
      {A : Type 0} (xs : List A) (n : ℕ)
      → n ≤ length xs
      → ReturnsWith (λ ys. length ys ≡ n) (sample random xs n)
  sample-ReturnsWith xs n h =
      let Given = λ (is : List ℕ). All (λ (i : ℕ). i < length xs) is × (length is ≡ n) in
      bind-ReturnsWith (λ _. Unit {0}) _ (raise_if (ltb (length xs) n) value_error) _
        (enough-Returns (ltb (length xs) n) value_error (ground arith))
        (λ _ _.
          bind-ReturnsWith Given _ (draw (λ k. random.sample k (length xs) n)) _
            (draw-ReturnsWith Given (λ k. random.sample k (length xs) n)
              (λ k. (random.sample_lt k (length xs) n h, random.sample_length k (length xs) n h)))
            (λ is (all, same).
              let (ys, found, long) = get_all_lt xs is all in
              found-ReturnsWith (λ ys. length ys ≡ n) (get_all xs is) index_error ys found
                (long ∙ same)))

-- A loop whose rounds return.
pub for_each-Returns :
    {A : Type 0} (P : A → Type 0) (xs : List A) (f : A → Exec Seeder (Unit {0}))
    → All P xs
    → ((a : A) → P a → Returns (f a))
    → Returns (for_each xs f)
for_each-Returns P [] f hs h = pure-Returns tt
for_each-Returns P (x ∷ xs) f (p, hs) h =
    bind-Returns (f x) (λ _. for_each xs f) (h x p) (λ _. for_each-Returns P xs f hs h)

pub for_all-Returns :
    {A : Type 0} (xs : List A) (f : A → Exec Seeder (Unit {0}))
    → ((a : A) → Returns (f a))
    → Returns (for_each xs f)
for_all-Returns [] f h = pure-Returns tt
for_all-Returns (x ∷ xs) f h =
    bind-Returns (f x) (λ _. for_each xs f) (h x) (λ _. for_all-Returns xs f h)

pub for_collect-ReturnsWith :
    {A B : Type 0} (P : A → Type 0) (Q : B → Type 0) (xs : List A) (f : A → Exec Seeder B)
    → All P xs
    → ((a : A) → P a → ReturnsWith Q (f a))
    → ReturnsWith (λ ys. All Q ys × (length ys ≡ length xs)) (for_collect xs f)
for_collect-ReturnsWith P Q [] f hs h = pure-ReturnsWith _ [] (tt, refl)
for_collect-ReturnsWith P Q (x ∷ xs) f (p, hs) h = bind-ReturnsWith Q _ (f x) _ (h x p) (λ y q.
    bind-ReturnsWith _ _ (for_collect xs f) _ (for_collect-ReturnsWith P Q xs f hs h)
      (λ ys (all, same). pure-ReturnsWith _ (y ∷ ys) ((q, all), ap suc same)))

pub repeat_collect-ReturnsWith :
    {B : Type 0} (n : ℕ) (m : Exec Seeder B)
    → Returns m
    → ReturnsWith (λ ys. length ys ≡ n) (repeat_collect n m)
repeat_collect-ReturnsWith zero m h = pure-ReturnsWith _ [] refl
repeat_collect-ReturnsWith (suc n) m h =
    bind-ReturnsWith (λ _. Unit {0}) _ m _ h
      (λ y _.
        bind-ReturnsWith _ _ (repeat_collect n m) _ (repeat_collect-ReturnsWith n m h)
          (λ ys same. pure-ReturnsWith _ (y ∷ ys) (ap suc same)))

pub ruleset returns = (
  pure-Returns, draw-Returns, query-Returns, uuid4-Returns, now-Returns, commit-Returns,
  execute-Returns, bind-Returns, for_all-Returns, choice-Returns, refl, arith,
)
