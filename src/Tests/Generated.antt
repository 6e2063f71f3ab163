-- ===== src/Tests/Generated.antt =====
-- Witnesses for the synthetic data.
use sirius_vkr.Prelude.{◌≡◌, refl, true, String, [], ◌∷◌, All, arith}
use sirius_vkr.Exec.{ok}
use sirius_vkr.Synthetic.{Source, Run, CsvFile, StudentRow, GuardianRow}
use sirius_vkr.Synthetic.Links.{generate_links}
use sirius_vkr.Synthetic.Csv.{write_csv}
use sirius_vkr.Synthetic.Choices.{Gives}
use sirius_vkr.Synthetic.Pairs.{AreUnique}
use sirius_vkr.Synthetic.Wards.{HasGuardians, Refers, generate_links-Gives}
use sirius_vkr.Synthetic.Files.{read_rows, write_csv-read_rows}

-- The least answer to each draw, and a second guardian always.
abbrev source : Source
source = record {
  randint = λ k lo hi. lo;
  choice = λ k n. 0;
  is_below = λ k n. true;
  uuid4 = λ k. "id";
  last_name_male = λ k. "Иванов";
  first_name_male = λ k. "Иван";
  middle_name_male = λ k. "Иванович";
  last_name_female = λ k. "Иванова";
  first_name_female = λ k. "Анна";
  middle_name_female = λ k. "Ивановна";
  email = λ k. "a@b.ru";
  randint_bounds = λ k lo hi h. (omega arith, h);
  choice_lt = λ k n h. h;
}

abbrev student : String → StudentRow
student k = record {
  id = k;
  last_name = "Иванов";
  first_name = "Иван";
  middle_name = "Иванович";
  email = "a@b.ru";
  phone = "";
  birth_date = "2012-01-01";
}

abbrev guardian : String → GuardianRow
guardian k = record {
  id = k;
  last_name = "Иванова";
  first_name = "Анна";
  middle_name = "Ивановна";
  email = "a@b.ru";
  phone = "";
  relation_type = "mother";
}

generate_links-Gives_example :
    Gives
      (λ links.
        AreUnique links
        × All (Refers ("a" ∷ "b" ∷ []) ("g" ∷ "h" ∷ [])) links
        × All (HasGuardians links) ("a" ∷ "b" ∷ []))
      (generate_links source (student "a" ∷ student "b" ∷ []) (guardian "g" ∷ guardian "h" ∷ []))
generate_links-Gives_example =
    generate_links-Gives source (student "a" ∷ student "b" ∷ []) (guardian "g" ∷ guardian "h" ∷ [])
      (omega arith) ((refl, tt), (tt, tt))

abbrev run : Run
run = record { draws = 0; files = [] }

write_csv-read_rows_example :
    (f : CsvFile) × (write_csv
        ((("student_id", "a") ∷ ("guardian_id", "g") ∷ []) ∷ [])
        "links.csv"
        run
      ≡ (ok tt, record run { files = f ∷ [] }))
    × (f.path ≡ "links.csv")
    × (read_rows f.rows ≡ (("student_id", "a") ∷ ("guardian_id", "g") ∷ []) ∷ [])
write_csv-read_rows_example =
    write_csv-read_rows (("student_id", "a") ∷ ("guardian_id", "g") ∷ []) [] "links.csv" run
      ((refl, tt), (tt, tt)) tt
