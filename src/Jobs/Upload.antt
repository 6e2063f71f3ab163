-- ===== src/Jobs/Upload.antt =====
-- upload_dataset of api/v1/data.py. `name`, `suffix` and `stem` of pathlib and `str.lower` are
-- written out on texts. Lowering is that of ASCII: no other character lowers to a letter of the
-- names that the code compares with.
mod Paths
pub mod Safety
unfoldable pub use Paths.{base_name, suffix, stem, lower, codes, same_codes}
use Prim.Native.String.{◌++◌}
use sirius_vkr.Prelude.{
  ℕ, Bool, true, false, not, ◌&&◌, ◌||◌, String, Option, none, some, List, [], ◌∷◌, ◌==◌, str_eq,
  coalesce, if◌then◌else◌,
}
use sirius_vkr.Sql.{delete_where}
use sirius_vkr.Models.Jobs.{Job, import}
use sirius_vkr.Exec.{Exec, http_exception, pure, raise_if, modify, ◌>>=◌, ◌>>◌}
use sirius_vkr.Session.{uuid4}
use sirius_vkr.Config.{Settings}
use sirius_vkr.Security.{Packages}
use sirius_vkr.Schemas.Job.{JobCreate}
use sirius_vkr.Jobs.Queue.{World, in_session}
use sirius_vkr.Jobs.Service.{create_job}

-- An `UploadFile`: the client's file name, and the content.
pub record UploadFile : Type 0 where
  pub filename : Option String
  pub content : String

-- A file on disk: its directory under `import_dir` by the batch id, its name and its content.
pub record StoredFile : Type 0 where
  pub batch_id : ℕ
  pub name : String
  pub content : String

-- The database, Redis and the files of `import_dir`.
pub record Host : Type 0 where
  pub world : World
  pub files : List StoredFile

-- A call that does not touch the files.
abbrev pub in_world : {A : Type 0} → Exec World A → Exec Host A
in_world m h = let (r, w) = m h.world in (r, record h { world = w })

-- `suffix in _ALLOWED_SUFFIXES`
unfoldable pub allowed_suffix : List ℕ → Bool
allowed_suffix s = same_codes s (codes ".csv") || same_codes s (codes ".xlsx")

-- `stem in _KNOWN_BASES`
unfoldable pub known_base : List ℕ → Bool
known_base s =
    same_codes s (codes "students")
    || same_codes s (codes "guardians")
    || same_codes s (codes "student_guardian")

-- The two tests on a file's name.
unfoldable pub acceptable : String → Bool
unfolding allowed_suffix known_base suffix stem lower
acceptable name = allowed_suffix (lower (suffix name)) && known_base (lower (stem name))

-- `(target_dir / name).write_bytes(content)`, over a file of that name
unfoldable pub write_file : StoredFile → List StoredFile → List StoredFile
write_file f files =
    f ∷ delete_where (λ (g : StoredFile). g.batch_id == f.batch_id && str_eq g.name f.name) files

-- One round of the loop of upload_dataset: each failed test is a 400.
unfoldable pub save_file : ℕ → UploadFile → Exec Host (Unit {0})
unfolding acceptable write_file base_name
save_file batch upload = do
  let name = base_name (coalesce upload.filename "")
  raise_if (not (acceptable name)) (http_exception 400)
  modify (λ h. record h {
    files = write_file (record { batch_id = batch; name = name; content = upload.content }) h.files;
  })

-- The loop; the result is `saved_any`.
unfoldable pub save_all : ℕ → List UploadFile → Bool → Exec Host Bool
unfolding save_file
save_all batch [] saved_any = pure saved_any
save_all batch (u ∷ us) saved_any = do save_file batch u; save_all batch us true

-- `str(target_dir)`
unfoldable pub target_dir : Packages → Settings → ℕ → String
target_dir packages settings batch = settings.import_dir ++ "/" ++ packages.uuid_str batch

-- The body of the import job.
unfoldable pub import_body : String → JobCreate
import_body dir = record {
  type = import;
  payload = record { file_path = some dir; dataset_id = none; mode = none; dataset = none };
}

-- `not files`
unfoldable pub no_files : List UploadFile → Bool
no_files [] = true
no_files (_ ∷ _) = false

unfoldable pub upload_dataset : Packages → Settings → List UploadFile → Exec Host Job
unfolding no_files save_all target_dir import_body create_job
upload_dataset packages settings files = do
  raise_if (no_files files) (http_exception 400)
  batch ← in_world (in_session uuid4)
  saved_any ← save_all batch files false
  raise_if (not saved_any) (http_exception 400)
  in_world (create_job (import_body (target_dir packages settings batch)))
