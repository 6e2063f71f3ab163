-- ===== src/Synthetic.antt =====
-- tools/gen_synthetic_data.py: made-up students, guardians and their links, as CSV files. What
-- random, uuid and faker answer to a draw is a parameter.
pub mod Links
pub mod Csv
pub mod Choices
pub mod Pairs
pub mod Wards
pub mod Files
use Prim.Native.String.{◌++◌ as join}
use sirius_vkr.Prelude.{
  ℕ, zero, suc, ◌+◌, ◌*◌, ◌≤◌, ◌<◌, Bool, true, false, not, ◌&&◌, ◌||◌, String, Option, none, some,
  List, [], ◌∷◌, ◌++◌, map, length, ltb, str_eq, if◌then◌else◌,
}
use sirius_vkr.Sql.{exists, select}
use sirius_vkr.Exec.{
  Exec, Error, index_error, value_error, pure, or_raise, raise_if, gets, modify, ◌>>=◌, ◌>>◌,
}
use sirius_vkr.Exec
use sirius_vkr.Seed.State.{get_elem?, for_each, repeat_collect}
use sirius_vkr.Seed.Translit.{decimal}

-- The answers by the number of draws before them: randint is within its bounds, choice is an index
-- below the length, is_below says whether random.random() is below some hundredths.
pub record Source : Type 0 where
  pub randint : ℕ → ℕ → ℕ → ℕ
  pub choice : ℕ → ℕ → ℕ
  pub is_below : ℕ → ℕ → Bool
  pub uuid4 : ℕ → String
  pub last_name_male : ℕ → String
  pub first_name_male : ℕ → String
  pub middle_name_male : ℕ → String
  pub last_name_female : ℕ → String
  pub first_name_female : ℕ → String
  pub middle_name_female : ℕ → String
  pub email : ℕ → String
  pub randint_bounds : (k lo hi : ℕ) → lo ≤ hi → (lo ≤ randint k lo hi) × (randint k lo hi ≤ hi)
  pub choice_lt : (k n : ℕ) → 0 < n → choice k n < n

-- A CSV file: its path and its rows, the header first.
pub record CsvFile : Type 0 where
  pub path : String
  pub rows : List (List String)

-- The draws so far, and the files that are written, the last one first.
pub record Run : Type 0 where
  pub draws : ℕ
  pub files : List CsvFile

abbrev pub draw : {A : Type 0} → (ℕ → A) → Exec Run A
draw f w = (Exec.Result.ok (f w.draws), record w { draws = suc w.draws })

abbrev pub Dict : Type 0
Dict = List (String × String)

pub record StudentRow : Type 0 where
  pub id : String
  pub last_name : String
  pub first_name : String
  pub middle_name : String
  pub email : String
  pub phone : String
  pub birth_date : String

pub record GuardianRow : Type 0 where
  pub id : String
  pub last_name : String
  pub first_name : String
  pub middle_name : String
  pub email : String
  pub phone : String
  pub relation_type : String

pub record Link : Type 0 where
  pub student_id : String
  pub guardian_id : String

unfoldable pub relation_types : List String
relation_types = "mother" ∷ "father" ∷ "guardian" ∷ []

abbrev pub birth_year_min : ℕ
birth_year_min = 2010

abbrev pub birth_year_max : ℕ
birth_year_max = 2015

-- Two digits of a month or a day.
abbrev padded : ℕ → String
padded n = if ltb n 10 then join "0" (decimal n) else decimal n

module _ (source : Source) where
  abbrev pub randint : ℕ → ℕ → Exec Run ℕ
  randint lo hi = draw (λ k. source.randint k lo hi)

  -- `random.choice(xs)`
  unfoldable pub choice : {A : Type 0} → List A → Exec Run A
  choice xs = do i ← draw (λ k. source.choice k (length xs)); or_raise (get_elem? xs i) index_error

  -- `_random_birth_date` and its isoformat()
  unfoldable pub random_birth_date : Exec Run String
  unfolding decimal
  random_birth_date = do
    birth_year ← randint birth_year_min birth_year_max
    birth_month ← randint 1 12
    birth_day ← randint 1 28
    pure (
        join (decimal birth_year)
          (join "-" (join (padded birth_month) (join "-" (padded birth_day)))))

  -- The text that `_phone_ru` makes of its nine digits.
  unfoldable pub phone_text : List ℕ → String
  unfolding decimal
  phone_text (a ∷ b ∷ c ∷ d ∷ e ∷ f ∷ g ∷ h ∷ i ∷ []) = join "+7 9" (
      join (decimal a) (
        join (decimal b) (
          join " " (
            join (decimal c) (
              join (decimal d) (
                join (decimal e) (
                  join " " (
                    join (decimal f)
                      (join (decimal g) (join " " (join (decimal h) (decimal i))))))))))))
  phone_text _ = ""

  unfoldable pub phone_ru : Exec Run String
  unfolding phone_text
  phone_ru = do digits ← repeat_collect 9 (randint 0 9); pure (phone_text digits)

  -- The three names, by the sex.
  unfoldable pub full_name : Bool → Exec Run (String × String × String)
  full_name male = do
    last ← draw (if male then source.last_name_male else source.last_name_female)
    first ← draw (if male then source.first_name_male else source.first_name_female)
    middle ← draw (if male then source.middle_name_male else source.middle_name_female)
    pure (last, first, middle)

  unfoldable pub generate_student : Exec Run StudentRow
  unfolding choice full_name phone_ru random_birth_date
  generate_student = do
    sex ← choice ("male" ∷ "female" ∷ [])
    (last, first, middle) ← full_name (str_eq sex "male")
    id ← draw source.uuid4
    email ← draw source.email
    phone ← phone_ru
    birth_date ← random_birth_date
    pure (record {
      id = id;
      last_name = last;
      first_name = first;
      middle_name = middle;
      email = email;
      phone = phone;
      birth_date = birth_date;
    })

  unfoldable pub generate_students : ℕ → Exec Run (List StudentRow)
  unfolding generate_student
  generate_students count = repeat_collect count generate_student

  unfoldable pub generate_guardian : Exec Run GuardianRow
  unfolding choice relation_types full_name phone_ru
  generate_guardian = do
    relation ← choice relation_types
    (last, first, middle) ← full_name (not (str_eq relation "mother"))
    id ← draw source.uuid4
    email ← draw source.email
    phone ← phone_ru
    pure (record {
      id = id;
      last_name = last;
      first_name = first;
      middle_name = middle;
      email = email;
      phone = phone;
      relation_type = relation;
    })

  unfoldable pub generate_guardians : ℕ → Exec Run (List GuardianRow)
  unfolding generate_guardian
  generate_guardians count = repeat_collect count generate_guardian
