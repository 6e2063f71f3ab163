-- ===== src/Seed/Runs.antt =====
-- seed_demo.py raises nothing where the roles exist: its parts.
use sirius_vkr.Prelude.{
  ℕ, suc, ◌+◌, ◌≤◌, ◌<◌, ◌≡◌, refl, ap, Bool, true, false, String, Option, none, some, List, [],
  ◌∷◌, length, length-append, arith, All, if◌then◌else◌,
}
use sirius_vkr.Models.Learning.{ActivityType}
use sirius_vkr.Postgres.{Postgres}
use sirius_vkr.Seed.Catalogue.{
  LessonSpec, ModuleSpec, SlotSpec, BadgeSpec, last_m, last_f, first_m, first_f, mid_m, mid_f,
}
use sirius_vkr.Seed.State.{Random, enumerate, choice}
use sirius_vkr.Seed.People.{
  Person, person, is_female, phone, birth_date, insert_student, insert_guardian,
}
use sirius_vkr.Seed.Contents.{
  add_badge, insert_badge, seed_lesson, seed_module, seed_slot, seed_group, seed_enrollment,
  add_enrollment, seed_activity, seed_demo_group, set_stats, award_badge, concat,
}
use sirius_vkr.Seed.Returns.{Returns, returns, bind-Returns, elem-Returns, pure-Returns}

module _ (random : Random) where
  phone-Returns : Returns (phone random)
  unfolding phone
  phone-Returns = search returns

  birth_date-Returns : Returns (birth_date random)
  unfolding birth_date
  birth_date-Returns = search returns

  is_female-Returns : (sex : Option Bool) → Returns (is_female random sex)
  unfolding is_female
  is_female-Returns none = search returns
  is_female-Returns (some female) = search returns

  last_name-Returns : (female : Bool) → Returns (choice random (if female then last_f else last_m))
  unfolding last_m last_f
  last_name-Returns true = search returns
  last_name-Returns false = search returns

  first_name-Returns :
      (female : Bool) → Returns (choice random (if female then first_f else first_m))
  unfolding first_m first_f
  first_name-Returns true = search returns
  first_name-Returns false = search returns

  middle_name-Returns : (female : Bool) → Returns (choice random (if female then mid_f else mid_m))
  unfolding mid_m mid_f
  middle_name-Returns true = search returns
  middle_name-Returns false = search returns

  pub person-Returns : (sex : Option Bool) → Returns (person random sex)
  unfolding person
  person-Returns sex = bind-Returns (is_female random sex) _ (is_female-Returns sex) (λ female.
      bind-Returns (choice random (if female then last_f else last_m)) _ (last_name-Returns female)
        (λ last.
          bind-Returns (choice random (if female then first_f else first_m)) _
            (first_name-Returns female)
            (λ first.
              bind-Returns (choice random (if female then mid_f else mid_m)) _
                (middle_name-Returns female) (λ middle. pure-Returns _))))

module _ (pg : Postgres) (random : Random) where
  pub insert_student-Returns :
      (p : Person) (user_id : Option ℕ) → Returns (insert_student pg random p user_id)
  unfolding insert_student
  insert_student-Returns p user_id = search (returns, phone-Returns, birth_date-Returns) depth 30

  pub insert_guardian-Returns :
      (p : Person) (user_id student_id : ℕ)
      → Returns (insert_guardian pg random p user_id student_id)
  unfolding insert_guardian
  insert_guardian-Returns p user_id student_id = search (returns, phone-Returns) depth 30

pub insert_badge-Returns : (b : BadgeSpec) → Returns (insert_badge b)
unfolding insert_badge add_badge
insert_badge-Returns b = search returns

seed_lesson-Returns :
    (title : String) (k m : ℕ) (spec : ℕ × LessonSpec) → Returns (seed_lesson title k m spec)
unfolding seed_lesson
seed_lesson-Returns title k m spec = search returns

pub seed_module-Returns :
    (title : String) (k : ℕ) (spec : ℕ × ModuleSpec) → Returns (seed_module title k spec)
unfolding seed_module
seed_module-Returns title k spec = search (returns, seed_lesson-Returns)

seed_slot-Returns : (k : ℕ) (slot : SlotSpec) → Returns (seed_slot k slot)
unfolding seed_slot
seed_slot-Returns k slot = search returns

pub seed_group-Returns :
    (teacher course : ℕ) (slots : List SlotSpec) (spec : ℕ × String)
    → Returns (seed_group teacher course slots spec)
unfolding seed_group
seed_group-Returns teacher course slots spec = search (returns, seed_slot-Returns) depth 20

pub seed_enrollment-Returns : (sid gid progress : ℕ) → Returns (seed_enrollment sid gid progress)
unfolding seed_enrollment add_enrollment
seed_enrollment-Returns sid gid progress = search returns

pub seed_activity-Returns :
    (at : ℕ) (spec : String × ActivityType × ℕ) → Returns (seed_activity at spec)
unfolding seed_activity
seed_activity-Returns at spec = search returns

pub set_stats-Returns : (k xp level streak : ℕ) → Returns (set_stats k xp level streak)
unfolding set_stats
set_stats-Returns k xp level streak = search returns

pub award_badge-Returns : (k : ℕ) (code : String) → Returns (award_badge k code)
unfolding award_badge
award_badge-Returns k code = search returns

pub seed_demo_group-Returns : (k i gid : ℕ) → i < 3 → Returns (seed_demo_group k (i, gid))
unfolding seed_demo_group
seed_demo_group-Returns k i gid h = search (returns, seed_enrollment-Returns, elem-Returns)

-- The places of a list whose numbering starts at n.
pub enumerate_lt :
    {A : Type 0} (n m : ℕ) (xs : List A)
    → n + length xs ≤ m
    → All (λ (t : ℕ × A). t.0 < m) (enumerate n xs)
enumerate_lt n m [] h = tt
enumerate_lt n m (x ∷ xs) h = (omega arith, enumerate_lt (suc n) m xs (omega arith))

pub length-enumerate : {A : Type 0} (n : ℕ) (xs : List A) → length (enumerate n xs) ≡ length xs
length-enumerate n [] = refl
length-enumerate n (x ∷ xs) = ap suc (length-enumerate (suc n) xs)

pub length-concat :
    (xss : List (List ℕ)) → All (λ xs. 0 < length xs) xss → length xss ≤ length (concat xss)
length-concat [] h = omega arith
length-concat (xs ∷ xss) (h, hs) =
    omega (arith, length-append xs (concat xss), length-concat xss hs)
