-- ===== src/Upload/Stored.antt =====
-- Where the uploaded files are.
use backend_boilerplate.Base.{
  if◌then◌else◌, inl, subst, inr, none, ap, ◌≢◌, Result-cases, All, List, Result, String, [], arith,
  false, includes, map, ok, refl, some, true, ℕ, ◌==◌, ◌∙◌, ◌∷◌, ◌≡◌,
}
use backend_boilerplate.Upload.{
  MulterFile, UploadedFile, FileSystem, Paths, local_storage, path_of, named, uploaded,
  allowed_mimes, upload_file, upload_all, upload_files, delete_file, upload_single, download_file,
  file_filter,
}

module _ {D C : Type 0} (F : FileSystem D C) (P : Paths) (dest : String) where
  -- A file uploaded alone is of an allowed type and held at the path of the answer, which a download under
  -- the name of the answer sends, from the working directory on.
  pub download_file-upload_single :
      (file_size : ℕ → MulterFile C → Result (Unit {0}))
      (collected : ℕ → ℕ → List (MulterFile C) → Result (Unit {0})) (limit : ℕ) (uuid : String)
      (file : MulterFile C) (d d' : D) (r : UploadedFile)
      → upload_single F P dest file_size collected limit uuid (some file) d ≡ (ok r, d')
      → (download_file F P dest r.file_name d' ≡ (ok (record { path = r.path; root = "." }), d'))
        × (F.content d' r.path ≡ some file.buffer)
        × (includes allowed_mimes file.mimetype ≡ true)
  unfolding upload_single upload_file local_storage download_file file_filter
  download_file-upload_single file_size collected limit uuid file d d' r e =
      let path : String = path_of F P dest (named F P dest uuid file) in
      let write : (F.write_file path file.buffer d).0 ≡ ok tt = ground arith in
      let answer : r ≡ uploaded F P dest uuid file = ground arith in
      let after : d' ≡ (F.write_file path file.buffer d).1 = ground arith in
      let held : F.content d' path ≡ some file.buffer =
        ground (arith, F.write_file_content d path file.buffer) in
      let there : F.access d' path ≡ ok tt = F.access_file d' path (λ e. ground (arith, e, held)) in
      rw answer (ground (arith, there), held, ground arith)

  abbrev pub path_for : String × MulterFile C → String
  path_for x = path_of F P dest (named F P dest x.0 x.1)

  abbrev pub Distinct : List (String × MulterFile C) → Type 0
  Distinct [] = Unit {0}
  Distinct (x ∷ xs) = All (λ y. (path_for y == path_for x) ≡ false) xs × Distinct xs

  abbrev pub Held : D → String × MulterFile C → Type 0
  Held d x = F.content d (path_for x) ≡ some (x.1).buffer

  untouched :
      (xs : List (String × MulterFile C)) (d : D) (q : String)
      → All (λ y. (path_for y == q) ≡ false) xs
      → F.content (upload_all F P dest xs d).1 q ≡ F.content d q
  unfolding upload_all local_storage
  untouched [] d q h = refl
  untouched ((uuid, file) ∷ xs) d q (other, h) =
      let next : D = ((local_storage F P dest).upload uuid file d).1 in
      untouched xs next q h
      ∙ ground (arith, F.write_file_other d (path_for (uuid, file)) file.buffer q other)

  upload_all-Held :
      (xs : List (String × MulterFile C)) (d : D) (rs : List UploadedFile)
      → Distinct xs
      → (upload_all F P dest xs d).0 ≡ ok rs
      → All (Held (upload_all F P dest xs d).1) xs × (rs ≡ map (λ x. uploaded F P dest x.0 x.1) xs)
  unfolding upload_all local_storage
  upload_all-Held [] d rs h e = (tt, ground arith)
  upload_all-Held ((uuid, file) ∷ xs) d rs (fresh, h) e =
      let path : String = path_for (uuid, file) in
      let next : D = ((local_storage F P dest).upload uuid file d).1 in
      elim (Result-cases (F.write_file path file.buffer d).0) [
        | inr (x, bad) ↦ absurd (ground arith)
        | inl (done, fine) ↦ elim (Result-cases (upload_all F P dest xs next).0) [
          | inr (x, bad) ↦ absurd (ground arith)
          | inl (rest, others) ↦
              let (kept, answers) = upload_all-Held xs next rest h others in
              let now : F.content next path ≡ some file.buffer =
                ground (arith, F.write_file_content d path file.buffer) in
              ((untouched xs next path fresh ∙ now, kept), ground (arith, answers))
        ]
      ]

  -- If an upload of several files returns, each file is held at the path of its answer, and the answers
  -- come in the order of the files, provided that the paths are distinct.
  pub upload_files-Held :
      (xs : List (String × MulterFile C)) (d d' : D) (rs : List UploadedFile)
      → Distinct xs
      → upload_files F P dest (some xs) d ≡ (ok rs, d')
      → All (Held d') xs × (rs ≡ map (λ x. uploaded F P dest x.0 x.1) xs)
  unfolding upload_files
  upload_files-Held [] d d' rs h e = absurd (ground arith)
  upload_files-Held (x ∷ xs) d d' rs h e =
      let (kept, answers) = upload_all-Held (x ∷ xs) d rs h (ap (λ p. p.0) e) in
      (subst (λ s. All (Held s) (x ∷ xs)) (ap (λ p. p.1) e) kept, answers)

  -- A deletion that returns has removed the file under the name, and no other.
  pub delete_file-removes :
      (file_name : String) (d d' : D)
      → delete_file F P dest file_name d ≡ (ok tt, d')
      → (F.content d (path_of F P dest file_name) ≢ none)
        × ((q : String)
            → F.content d' q ≡ (if path_of F P dest file_name == q then none else F.content d q))
  unfolding delete_file local_storage
  delete_file-removes file_name d d' e = (
    ground (arith, F.unlink_found d (path_of F P dest file_name)),
    λ q. ground (arith, F.unlink_content d (path_of F P dest file_name) q),
  )
