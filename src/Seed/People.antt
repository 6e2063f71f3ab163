-- ===== src/Seed/People.antt =====
-- seed_demo.py: random persons, the accounts, and the rows of students and guardians.
use Prim.Native.String.{◌++◌}
use sirius_vkr.Prelude.{
  ℕ, ◌+◌, ◌*◌, Bool, true, false, String, Option, none, some, [], ◌∷◌, if◌then◌else◌,
}
use mathlib.Core.List.{◌++◌ as append}
use sirius_vkr.Models.Access.{RoleName}
use sirius_vkr.Models.People.{Student, Guardian, Bytes}
use sirius_vkr.Exec.{Exec, pure, ◌>>=◌, ◌>>◌}
use sirius_vkr.Session.{Session}
use sirius_vkr.Security.{Packages}
use sirius_vkr.Config.{Settings}
use sirius_vkr.Postgres.{Postgres}
use sirius_vkr.Auth.Service.{get_user_by_email, register_user}
use sirius_vkr.Seed.Catalogue.{last_m, last_f, first_m, first_f, mid_m, mid_f}
use sirius_vkr.Seed.Translit.{translit, decimal}
use sirius_vkr.Seed.State.{Random, Seeder, in_session, uuid4, now, query, execute, randint, choice}

-- The dict of `_person`.
pub record Person : Type 0 where
  pub last_name : String
  pub first_name : String
  pub middle_name : String

-- A date as the number yyyymmdd.
unfoldable pub date : ℕ → ℕ → ℕ → ℕ
date year month day = year * 10000 + month * 100 + day

module _ (random : Random) where
  unfoldable pub phone : Exec Seeder String
  unfolding decimal
  phone = do
    a ← randint random 10 99
    b ← randint random 100 999
    c ← randint random 10 99
    d ← randint random 10 99
    pure ("+7 9" ++ decimal a ++ " " ++ decimal b ++ " " ++ decimal c ++ " " ++ decimal d)

  -- The sex of `_person`, drawn where it is not given.
  unfoldable pub is_female : Option Bool → Exec Seeder Bool
  is_female none = choice random (true ∷ false ∷ [])
  is_female (some female) = pure female

  unfoldable pub person : Option Bool → Exec Seeder Person
  unfolding is_female last_m last_f first_m first_f mid_m mid_f
  person sex = do
    female ← is_female sex
    last ← choice random (if female then last_f else last_m)
    first ← choice random (if female then first_f else first_m)
    middle ← choice random (if female then mid_f else mid_m)
    pure (record { last_name = last; first_name = first; middle_name = middle })

  unfoldable pub birth_date : Exec Seeder ℕ
  unfolding date
  birth_date = do
    year ← randint random 2010 2014
    month ← randint random 1 12
    day ← randint random 1 28
    pure (date year month day)

-- The case of `_ensure_user` on the account that was found.
unfoldable pub ensured : Packages → Settings → String → RoleName → Option ℕ → Exec Session ℕ
unfolding register_user
ensured packages settings email role (some k) = pure k
ensured packages settings email role none = do
  user ← register_user packages email settings.seed_demo_password (role ∷ [])
  pure user.id

unfoldable pub ensure_user : Packages → Settings → String → RoleName → Exec Seeder ℕ
unfolding ensured get_user_by_email
ensure_user packages settings email role = do
  existing ← query (get_user_by_email email)
  in_session (
      ensured packages settings email role
        (elim existing [ none ↦ none | some user ↦ some user.id ]))

module _ (pg : Postgres) where
  -- vault.encrypt_pii of a text; the nonce is drawn from the supply of UUIDs.
  abbrev encrypted : String → Exec Seeder Bytes
  encrypted t = do nonce ← uuid4; pure (pg.sym_encrypt nonce t pg.key)

  -- `_insert_student`
  unfoldable pub insert_student : Random → Person → Option ℕ → Exec Seeder ℕ
  unfolding translit phone birth_date
  insert_student random p user_id = do
    sid ← uuid4
    ph ← phone random
    bd ← birth_date random
    ln ← encrypted p.last_name
    fn ← encrypted p.first_name
    mn ← encrypted p.middle_name
    em ← encrypted (translit p.first_name ++ "@example.org")
    ph' ← encrypted ph
    at ← now
    let row : Student = record {
      id = sid;
      last_name = ln;
      first_name = fn;
      middle_name = some mn;
      email = some em;
      phone = some ph';
      birth_date = some bd;
      user_id = user_id;
      created_at = at;
      updated_at = at;
    }
    execute (λ db. record db { students = append db.students (row ∷ []) })
    pure sid

  -- `_insert_guardian`
  unfoldable pub insert_guardian : Random → Person → ℕ → ℕ → Exec Seeder (Unit {0})
  unfolding translit phone
  insert_guardian random p user_id student_id = do
    gid ← uuid4
    ph ← phone random
    ln ← encrypted p.last_name
    fn ← encrypted p.first_name
    mn ← encrypted p.middle_name
    em ← encrypted (translit p.first_name ++ ".parent@example.org")
    ph' ← encrypted ph
    at ← now
    let row : Guardian = record {
      id = gid;
      last_name = ln;
      first_name = fn;
      middle_name = some mn;
      email = some em;
      phone = some ph';
      relation_type = some "mother";
      user_id = some user_id;
      created_at = at;
      updated_at = at;
    }
    execute (λ db. record db { guardians = append db.guardians (row ∷ []) })
    execute (λ db. record db {
      student_guardian =
          append db.student_guardian (record { student_id = student_id; guardian_id = gid } ∷ []);
    })
