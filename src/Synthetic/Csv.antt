-- ===== src/Synthetic/Csv.antt =====
-- write_csv and main of tools/gen_synthetic_data.py.
use Prim.Native.String.{◌++◌ as join}
use sirius_vkr.Prelude.{ℕ, not, String, List, [], ◌∷◌, ◌++◌, map, leb, str_eq, if◌then◌else◌}
use sirius_vkr.Sql.{exists}
use sirius_vkr.Exec.{Exec, value_error, pure, raise_if, modify, ◌>>=◌, ◌>>◌}
use sirius_vkr.Seed.State.{for_each}
use sirius_vkr.Synthetic.{
  Source, Run, CsvFile, Dict, StudentRow, GuardianRow, Link, generate_students, generate_guardians,
}
use sirius_vkr.Synthetic.Links.{generate_links}

unfoldable pub student_dict : StudentRow → Dict
student_dict s =
    ("id", s.id)
    ∷ ("last_name", s.last_name)
    ∷ ("first_name", s.first_name)
    ∷ ("middle_name", s.middle_name)
    ∷ ("email", s.email)
    ∷ ("phone", s.phone)
    ∷ ("birth_date", s.birth_date)
    ∷ []

unfoldable pub guardian_dict : GuardianRow → Dict
guardian_dict g =
    ("id", g.id)
    ∷ ("last_name", g.last_name)
    ∷ ("first_name", g.first_name)
    ∷ ("middle_name", g.middle_name)
    ∷ ("email", g.email)
    ∷ ("phone", g.phone)
    ∷ ("relation_type", g.relation_type)
    ∷ []

unfoldable pub link_dict : Link → Dict
link_dict l = ("student_id", l.student_id) ∷ ("guardian_id", l.guardian_id) ∷ []

abbrev pub keys : Dict → List String
keys row = map (λ (t : String × String). t.0) row

-- `row.get(key, "")`
unfoldable pub get : String → Dict → String
get key [] = ""
get key ((k, v) ∷ row) = let rest = get key row in if str_eq k key then v else rest

-- The rows of the file that was opened last.
abbrev pub append_row : List String → List CsvFile → List CsvFile
append_row cells [] = []
append_row cells (f ∷ fs) = record f { rows = f.rows ++ cells ∷ [] } ∷ fs

-- The columns of DictWriter for a row; a key that is no field raises ValueError.
unfoldable pub write_row : List String → Dict → Exec Run (Unit {0})
unfolding get
write_row fields row = do
  raise_if (exists (λ k. not (exists (λ f. str_eq f k) fields)) (keys row)) value_error
  modify (λ w. record w { files = append_row (map (λ f. get f row) fields) w.files })

-- The file is opened anew, with the header and then the rows; no rows, no file.
unfoldable pub write_csv : List Dict → String → Exec Run (Unit {0})
unfolding write_row
write_csv [] path = pure tt
write_csv (row ∷ rows) path = do
  modify (λ w. record w { files = record { path = path; rows = keys row ∷ [] } ∷ w.files })
  for_each (row ∷ rows) (write_row (keys row))

-- `main` on a count and an output directory. `share` is math.ceil(n * 0.7).
unfoldable pub main : Source → (ℕ → ℕ) → ℕ → String → Exec Run (Unit {0})
unfolding generate_students generate_guardians generate_links student_dict guardian_dict link_dict
    write_csv
main source share n out = do
  let g_count = if leb (share n) 1 then 1 else share n
  students ← generate_students source n
  guardians ← generate_guardians source g_count
  links ← generate_links source students guardians
  write_csv (map student_dict students) (join out "/students.csv")
  write_csv (map guardian_dict guardians) (join out "/guardians.csv")
  write_csv (map link_dict links) (join out "/student_guardian.csv")
