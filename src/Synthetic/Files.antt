-- ===== src/Synthetic/Files.antt =====
-- write_csv of tools/gen_synthetic_data.py: the file that is read back.
use sirius_vkr.Prelude.{
  ◌≡◌, refl, sym, ◌∙◌, true, false, not, String, List, [], ◌∷◌, ◌++◌, map, append_assoc, append-nil,
  All, AreDistinct, str_eq, str_eq_refl,
}
use sirius_vkr.Sql.{exists}
use sirius_vkr.Exec.{ok}
use sirius_vkr.Exec.Laws.{bind_ok}
use sirius_vkr.Seed.State.{for_each}
use sirius_vkr.Synthetic.{Run, CsvFile, Dict}
use sirius_vkr.Synthetic.Csv.{keys, get, write_row, write_csv}
use sirius_vkr.Synthetic.Wards.{member_self}

-- The cells of a row under a header.
abbrev pub with_header : List String → List String → Dict
with_header [] cells = []
with_header (k ∷ ks) [] = []
with_header (k ∷ ks) (c ∷ cells) = (k, c) ∷ with_header ks cells

-- csv.DictReader: each row under the header.
abbrev pub read_rows : List (List String) → List Dict
read_rows [] = []
read_rows (header ∷ rows) = map (with_header header) rows

abbrev cells : List String → Dict → List String
cells fields row = map (λ f. get f row) fields

none_extra :
    (fields all : List String)
    → All (λ k. exists (λ f. str_eq f k) all ≡ true) fields
    → exists (λ k. not (exists (λ f. str_eq f k) all)) fields ≡ false
none_extra [] all h = refl
none_extra (k ∷ ks) all (h, hs) = rw (h, none_extra ks all hs) refl

-- A column in front that no field has.
get_behind :
    (k v : String) (row : Dict) (fields : List String)
    → All (λ f. str_eq k f ≡ false) fields
    → cells fields ((k, v) ∷ row) ≡ cells fields row
unfolding get
get_behind k v row [] h = refl
get_behind k v row (f ∷ fs) (h, hs) = rw (h, get_behind k v row fs hs) refl

with_header-cells :
    (row : Dict) → AreDistinct (keys row) → with_header (keys row) (cells (keys row) row) ≡ row
unfolding get
with_header-cells [] d = refl
with_header-cells ((k, v) ∷ row) (apart, d) =
    rw (str_eq_refl k, get_behind k v row (keys row) apart, with_header-cells row d) refl

with_header-same :
    (fields : List String) (row : Dict)
    → keys row ≡ fields
    → AreDistinct fields
    → with_header fields (cells fields row) ≡ row
with_header-same fields row same d = rw (sym same) (with_header-cells row (rw same d))

read_cells :
    (fields : List String) (rows : List Dict)
    → All (λ row. keys row ≡ fields) rows
    → AreDistinct fields
    → map (with_header fields) (map (cells fields) rows) ≡ rows
read_cells fields [] h d = refl
read_cells fields (row ∷ rows) (h, hs) d =
    rw (with_header-same fields row h d, read_cells fields rows hs d) refl

-- The run once some rows are behind those of the file that was opened last.
abbrev written : CsvFile → List CsvFile → List (List String) → Run → Run
written f fs rows w = record w { files = record f { rows = f.rows ++ rows } ∷ fs }

write_row_ok :
    (f : CsvFile) (fs : List CsvFile) (fields : List String) (row : Dict) (w : Run)
    → keys row ≡ fields
    → write_row fields row (record w { files = f ∷ fs })
      ≡ (ok tt, written f fs (cells fields row ∷ []) w)
unfolding write_row
write_row_ok f fs fields row w same = rw (same, none_extra fields fields (member_self fields)) refl

write_rows_ok :
    (f : CsvFile) (fs : List CsvFile) (fields : List String) (rows : List Dict) (w : Run)
    → All (λ row. keys row ≡ fields) rows
    → for_each rows (write_row fields) (record w { files = f ∷ fs })
      ≡ (ok tt, written f fs (map (cells fields) rows) w)
write_rows_ok f fs fields [] w h = rw (append-nil f.rows) refl
write_rows_ok f fs fields (row ∷ rows) w (h, hs) =
    bind_ok (write_row fields row) (λ _. for_each rows (write_row fields))
      (record w { files = f ∷ fs }) (written f fs (cells fields row ∷ []) w) tt
      (write_row_ok f fs fields row w h)
    ∙ write_rows_ok (record f { rows = f.rows ++ cells fields row ∷ [] }) fs fields rows w hs
    ∙ rw (append_assoc f.rows (cells fields row ∷ []) (map (cells fields) rows)) refl

-- Where the rows have the same distinct keys, write_csv returns and puts one file before the others,
-- which has the path and reads back as the rows.
pub write_csv-read_rows :
    (row : Dict) (rows : List Dict) (path : String) (w : Run)
    → AreDistinct (keys row)
    → All (λ r. keys r ≡ keys row) rows
    → (f : CsvFile) × (write_csv (row ∷ rows) path w ≡ (ok tt, record w { files = f ∷ w.files }))
      × (f.path ≡ path)
      × (read_rows f.rows ≡ row ∷ rows)
unfolding write_csv
write_csv-read_rows row rows path w d h =
    let fields = keys row in
    (
      record { path = path; rows = fields ∷ map (cells fields) (row ∷ rows) },
      write_rows_ok (record { path = path; rows = fields ∷ [] }) w.files fields (row ∷ rows) w
          (refl, h),
      refl,
      read_cells fields (row ∷ rows) (refl, h) d,
    )
