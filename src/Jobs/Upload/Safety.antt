-- ===== src/Jobs/Upload/Safety.antt =====
-- What an upload writes, and when it makes no job: upload_dataset.
use mathlib.Core.Path.{subst}
use Prim.Native.Char.{Char, code}
use Prim.Native.String.{[], ◌∷◌}
use sirius_vkr.Prelude.{
  ℕ, ◌≡◌, refl, sym, ap, ◌∙◌, Bool, true, false, not, ◌&&◌, ◌||◌, String, List, ◌==◌, All, arith,
  str_eq, coalesce, Bool-cases, inl, inr, if◌then◌else◌, if_property,
}
use sirius_vkr.Sql.{exists, delete_where}
use sirius_vkr.Models.Jobs.{Job}
use sirius_vkr.Exec.{Exec, Result, ok, err, http_exception, raise_if, ◌>>◌}
use sirius_vkr.Exec.Laws.{bind_keeps, bind_ok, bind_err}
use sirius_vkr.Session.{uuid4}
use sirius_vkr.Config.{Settings}
use sirius_vkr.Security.{Packages}
use sirius_vkr.Jobs.Queue.{in_session}
use sirius_vkr.Jobs.Service.{create_job}
use sirius_vkr.Jobs.Upload.{
  UploadFile, StoredFile, Host, base_name, acceptable, write_file, save_file, save_all,
  upload_dataset, no_files, in_world, import_body, target_dir,
}
use sirius_vkr.Jobs.Upload.Paths.{push, components, last_name}

-- A slash in a text.
abbrev pub has_slash : String → Bool
has_slash [] = false
has_slash (c ∷ s) = code c == b'/' || has_slash s

abbrev Plain : String → Type 0
Plain s = has_slash s ≡ false

push-Plain :
    (c : Char) (ws : List String) → (code c == b'/') ≡ false → All Plain ws → All Plain (push c ws)
unfolding push
push-Plain c List.[] h p = (ground (arith, h), tt)
push-Plain c (List.◌∷◌ w ws) h p = (ground (arith, h, p.0), p.1)

components-Plain : (s : String) → All Plain (components s)
unfolding components
components-Plain [] = (refl, tt)
components-Plain (c ∷ s) =
    if_property (All Plain) (code c == b'/') (List.◌∷◌ "" (components s)) (push c (components s))
      (λ _. (refl, components-Plain s)) (λ h. push-Plain c (components s) h (components-Plain s))

last_name-Plain : (ws : List String) → All Plain ws → Plain (last_name ws)
unfolding last_name
last_name-Plain List.[] h = refl
last_name-Plain (List.◌∷◌ w ws) h =
    if_property Plain (str_eq (last_name ws) "") (if str_eq w "." then "" else w) (last_name ws)
      (λ _. if_property Plain (str_eq w ".") "" w (λ _. refl) (λ _. h.0))
      (λ _. last_name-Plain ws h.1)

base_name-Plain : (s : String) → Plain (base_name s)
unfolding base_name
base_name-Plain s = last_name-Plain (components s) (components-Plain s)

-- A stored file has a name that the upload accepts, and no slash in it.
abbrev pub IsSafe : StoredFile → Type 0
IsSafe f = (acceptable f.name ≡ true) × (has_slash f.name ≡ false)

delete_where-All :
    (P : StoredFile → Type 0) (p : StoredFile → Bool) (fs : List StoredFile)
    → All P fs
    → All P (delete_where p fs)
delete_where-All P p List.[] h = tt
delete_where-All P p (List.◌∷◌ f fs) h =
    if_property (All P) (p f) (delete_where p fs) (List.◌∷◌ f (delete_where p fs))
      (λ _. delete_where-All P p fs h.1) (λ _. (h.0, delete_where-All P p fs h.1))

save_file-IsSafe :
    (batch : ℕ) (u : UploadFile) (h : Host)
    → All IsSafe h.files
    → All IsSafe (save_file batch u h).1.files
unfolding save_file write_file
save_file-IsSafe batch u h safe =
    let name = base_name (coalesce u.filename "") in
    let stored : StoredFile = record { batch_id = batch; name = name; content = u.content } in
    elim (Bool-cases (acceptable name)) [
      | inl good ↦ rw good (
        (good, base_name-Plain (coalesce u.filename "")),
        delete_where-All IsSafe (λ g. g.batch_id == batch && str_eq g.name name) h.files safe,
      )
      | inr bad ↦ rw bad safe
    ]

save_all-IsSafe :
    (batch : ℕ) (us : List UploadFile) (saved_any : Bool) (h : Host)
    → All IsSafe h.files
    → All IsSafe (save_all batch us saved_any h).1.files
unfolding save_all
save_all-IsSafe batch List.[] saved_any h safe = safe
save_all-IsSafe batch (List.◌∷◌ u us) saved_any h safe =
    bind_keeps (λ (t : Host). All IsSafe t.files) (save_file batch u) (λ _. save_all batch us true)
      h (save_file-IsSafe batch u h safe)
      (λ _ kept. save_all-IsSafe batch us true (save_file batch u h).1 kept)

-- What follows the loop of upload_dataset.
abbrev make_job : Packages → Settings → ℕ → Bool → Exec Host Job
make_job packages settings batch saved_any = do
  raise_if (not saved_any) (http_exception 400)
  in_world (create_job (import_body (target_dir packages settings batch)))

make_job-IsSafe :
    (packages : Packages) (settings : Settings) (batch : ℕ) (saved_any : Bool) (h : Host)
    → All IsSafe h.files
    → All IsSafe (make_job packages settings batch saved_any h).1.files
make_job-IsSafe packages settings batch true h safe = safe
make_job-IsSafe packages settings batch false h safe = safe

-- Where every stored file has an accepted name without a slash, every one has after an upload,
-- whatever its outcome.
pub upload_dataset-IsSafe :
    (packages : Packages) (settings : Settings) (us : List UploadFile) (h : Host)
    → All IsSafe h.files
    → All IsSafe (upload_dataset packages settings us h).1.files
unfolding upload_dataset
upload_dataset-IsSafe packages settings List.[] h safe = safe
upload_dataset-IsSafe packages settings (List.◌∷◌ u us) h safe =
    let batch = h.world.session.fresh h.world.session.drawn in
    let started = (in_world (in_session uuid4) h).1 in
    bind_keeps (λ (t : Host). All IsSafe t.files) (save_all batch (List.◌∷◌ u us) false)
      (make_job packages settings batch) started
      (save_all-IsSafe batch (List.◌∷◌ u us) false started safe)
      (λ saved_any.
        make_job-IsSafe packages settings batch saved_any
          (save_all batch (List.◌∷◌ u us) false started).1)

-- A file whose name fails a test of the upload.
abbrev pub is_refused : UploadFile → Bool
is_refused u = not (acceptable (base_name (coalesce u.filename "")))

save_file_refused :
    (batch : ℕ) (u : UploadFile) (h : Host)
    → is_refused u ≡ true
    → save_file batch u h ≡ (err (http_exception 400), h)
unfolding save_file
save_file_refused batch u h bad = rw bad refl

save_file_accepted :
    (batch : ℕ) (u : UploadFile) (h : Host)
    → is_refused u ≡ false
    → (save_file batch u h ≡ (ok tt, (save_file batch u h).1))
      × ((save_file batch u h).1.world ≡ h.world)
unfolding save_file
save_file_accepted batch u h good = rw good (refl, refl)

save_all_refused :
    (batch : ℕ) (us : List UploadFile) (saved_any : Bool) (h : Host)
    → exists is_refused us ≡ true
    → ((save_all batch us saved_any h).0 ≡ err (http_exception 400))
      × ((save_all batch us saved_any h).1.world ≡ h.world)
unfolding save_all
save_all_refused batch List.[] saved_any h bad = absurd (cc bad)
save_all_refused batch (List.◌∷◌ u us) saved_any h bad =
    let Refuses =
      λ (t : Result Bool × Host). (t.0 ≡ err (http_exception 400)) × (t.1.world ≡ h.world) in
    elim (Bool-cases (is_refused u)) [
      | inl refused ↦
          subst Refuses
            (sym (
              bind_err (save_file batch u) (λ _. save_all batch us true) h h (http_exception 400)
                (save_file_refused batch u h refused)))
            (refl, refl)
      | inr accepted ↦
          let (done, same) = save_file_accepted batch u h accepted in
          let rest =
            save_all_refused batch us true (save_file batch u h).1
              (ground (arith, bad, accepted)) in
          subst Refuses
            (sym (
              bind_ok (save_file batch u) (λ _. save_all batch us true) h (save_file batch u h).1 tt
                done))
            (rest.0, rest.1 ∙ same)
    ]

-- With a file that is refused anywhere in the list the upload answers 400, and the committed tables
-- and the stream stay as they were.
pub upload_dataset_refused :
    (packages : Packages) (settings : Settings) (us : List UploadFile) (h : Host)
    → exists is_refused us ≡ true
    → let (r, h') = upload_dataset packages settings us h in
      (r ≡ err (http_exception 400))
      × (h'.world.session.committed ≡ h.world.session.committed)
      × (h'.world.redis ≡ h.world.redis)
unfolding upload_dataset no_files
upload_dataset_refused packages settings List.[] h bad = absurd (cc bad)
upload_dataset_refused packages settings (List.◌∷◌ u us) h bad =
    let batch = h.world.session.fresh h.world.session.drawn in
    let started = (in_world (in_session uuid4) h).1 in
    let m = save_all batch (List.◌∷◌ u us) false in
    let (raised, same) = save_all_refused batch (List.◌∷◌ u us) false started bad in
    let whole =
      bind_err m (make_job packages settings batch) started (m started).1 (http_exception 400)
        (ap (λ r. (r, (m started).1)) raised) in
    (
      ap (λ t. t.0) whole,
      ap (λ t. t.1.world.session.committed) whole ∙ ap (λ w. w.session.committed) same,
      ap (λ t. t.1.world.redis) whole ∙ ap (λ w. w.redis) same,
    )
