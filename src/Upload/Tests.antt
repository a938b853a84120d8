-- ===== src/Upload/Tests.antt =====
-- Uploads to a list of files, with texts as contents.
use Prim.Native.String.{◌++◌ as str_append}
use text.Mathlib.TextPositions.{eq_refl}
use backend_boilerplate.Base.{
  List, Option, Result, String, [], error, http, if◌then◌else◌, leb, length, none, ok, refl, some,
  throw, ℕ, ◌==◌, ◌∙◌, ◌∷◌, ◌≡◌, ◌≢◌,
}
use backend_boilerplate.Store.Assoc.{at, assoc_table, assoc_steps}
use backend_boilerplate.Upload.{
  MulterFile, UploadedFile, FileSystem, Paths, local_storage, uploaded, upload_file, upload_all,
  upload_files, delete_file, upload_single, upload_multiple, download_file, file_filter, s3_storage,
}

abbrev Disk : Type 0
Disk = List (String × String)

abbrev found : Option String → Result (Unit {0})
found none = throw (error "ENOENT")
found (some c) = ok tt

accessed : (d : Disk) (p : String) → at d p ≢ none → found (at d p) ≡ ok tt
accessed d p h =
    elim (at d p) as (λ o. o ≢ none → found o ≡ ok tt) [
      | none ↦ λ h. absurd (h refl)
      | some c ↦ λ h. refl
    ]
      h

write_content :
    (d : Disk) (p c q : String) → at ((p, c) ∷ d) q ≡ (if p == q then some c else at d q)
unfolding assoc_steps
write_content d p c q = refl

disk : FileSystem Disk String
disk = record {
  content = at;
  write_file = λ p c d. (ok tt, (p, c) ∷ d);
  unlink = (assoc_table {V = String}).delete;
  access = λ d p. found (at d p);
  write_file_content = λ d p c. write_content d p c p ∙ rw (eq_refl p) refl;
  write_file_other = λ d p c q e. write_content d p c q ∙ rw e refl;
  unlink_found = (assoc_table {V = String}).delete_found;
  unlink_content = (assoc_table {V = String}).delete_rows;
  access_file = accessed;
}

abbrev paths : Paths
paths = record { join = λ a b. str_append a (str_append "/" b); extname = λ s. ".txt" }

abbrev note : MulterFile String
note = record { originalname = "note.txt"; mimetype = "text/plain"; size = 5; buffer = "hello" }

abbrev page : MulterFile String
page = record { originalname = "page.txt"; mimetype = "text/html"; size = 3; buffer = "<p>" }

abbrev small : ℕ → MulterFile String → Result (Unit {0})
small limit file = if leb file.size limit then ok tt else throw (http 413 "File too large")

abbrev few : ℕ → ℕ → List (MulterFile String) → Result (Unit {0})
few count limit files =
    if leb (length files) count then ok tt else throw (http 400 "Unexpected field")

abbrev upload_note : Option (MulterFile String) → Disk → Result UploadedFile × Disk
upload_note = upload_single disk paths "uploads" small few 10 "id1"

abbrev noted : Disk
noted = ("uploads/id1.txt", "hello") ∷ []

run : Unit {0}
unfolding upload_single upload_multiple upload_files upload_all upload_file delete_file
    download_file local_storage s3_storage file_filter disk assoc_steps
run = tt

upload_tests :
    (upload_note (some note) [] ≡ (ok (uploaded disk paths "uploads" "id1" note), noted))
    × ((upload_note none []).0 ≡ throw (http 400 "No file provided"))
    × ((upload_note (some (record note { size = 11 })) []).0 ≡ throw (http 413 "File too large"))
    × (delete_file disk paths "uploads" "id1.txt" noted ≡ (ok tt, []))
    × (delete_file disk paths "uploads" "id2.txt" noted
        ≡ (throw (http 400 "File not found"), noted))
    × (download_file disk paths "uploads" "id2.txt" noted
        ≡ (throw (http 400 "File not found"), noted))
    × ((upload_note (some page) []).1 ≡ [])
    × ((upload_multiple disk paths "uploads" small few 10 (some (("id1", page) ∷ [])) []).1
        ≡ ("uploads/id1.txt", "<p>") ∷ [])
unfolding run
upload_tests = (refl, refl, refl, refl, refl, refl, refl, refl)

abbrev both : List (String × MulterFile String)
both = ("id1", note) ∷ ("id2", page) ∷ []
