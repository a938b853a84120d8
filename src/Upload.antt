-- ===== src/Upload.antt =====
-- src/infra/upload: the storages, upload.service.ts and upload.controller.ts. The file system, node's
-- `path`, multer and the `uuid` that a call draws are parameters.
mod Stored
mod Tests
use Prim.Native.String.{◌++◌ as str_append}
use backend_boilerplate.Base.{
  includes, Bool, Ensures, Exception, Exec, List, Option, Result, String, [], any, error, false,
  http, if◌then◌else◌, map, none, not, ok, pure, raise, reads, some, throw, true, try_catch, writes,
  ℕ, ◌*◌, ◌==◌, ◌>>=◌, ◌>>◌, ◌∷◌, ◌≡◌, ◌≢◌,
}

-- `Express.Multer.File`
pub record MulterFile (C : Type 0) : Type 0 where
  pub originalname : String
  pub mimetype : String
  pub size : ℕ
  pub buffer : C

pub record UploadedFile : Type 0 where
  pub original_name : String
  pub file_name : String
  pub mime_type : String
  pub size : ℕ
  pub url : String
  pub path : String

-- `fs`. `content` is what a file holds, which only the laws name. A write that throws may have
-- changed the file at its own path. No file is reached by two spellings of its path.
pub record FileSystem (D C : Type 0) : Type 0 where
  pub content : D → String → Option C
  pub write_file : String → C → Exec D (Unit {0})
  pub unlink : D → String → Result D
  pub access : D → String → Result (Unit {0})
  pub write_file_content :
      (d : D) (p : String) (c : C)
      → Ensures (λ _. content (write_file p c d).1 p ≡ some c) (write_file p c d).0
  pub write_file_other :
      (d : D) (p : String) (c : C) (q : String)
      → (p == q) ≡ false
      → content (write_file p c d).1 q ≡ content d q
  -- ENOENT, or no file
  pub unlink_found : (d : D) (p : String) → Ensures (λ _. content d p ≢ none) (unlink d p)
  pub unlink_content :
      (d : D) (p q : String)
      → Ensures (λ t. content t q ≡ (if p == q then none else content d q)) (unlink d p)
  pub access_file : (d : D) (p : String) → content d p ≢ none → access d p ≡ ok tt

-- `res.sendFile(path, { root })`
pub record SentFile : Type 0 where
  pub path : String
  pub root : String

-- node's `path`
pub record Paths : Type 0 where
  pub join : String → String → String
  pub extname : String → String

-- `IStorageService`; `upload` has the `uuid` that it draws.
pub record StorageService (D C : Type 0) : Type 0 where
  pub upload : String → MulterFile C → Exec D UploadedFile
  pub delete : String → Exec D (Unit {0})
  pub get_file_url : String → String
  pub exists : String → Exec D Bool

-- s3-storage.service.ts, a stub.
pub s3_storage : {D C : Type 0} → StorageService D C
s3_storage = record {
  upload = λ uuid file. raise (error "S3 upload not implemented");
  delete = λ file_name. raise (error (str_append "S3 delete not implemented for file: " file_name));
  get_file_url = λ file_name. str_append "https://your-bucket.s3.amazonaws.com/" file_name;
  exists = λ file_name. pure false;
}

abbrev pub get_file_url : String → String
get_file_url file_name = str_append "/uploads/" file_name

abbrev pub allowed_mimes : List String
allowed_mimes =
    "image/jpeg" ∷ "image/png" ∷ "image/gif" ∷ "image/webp" ∷ "application/pdf" ∷ "text/plain" ∷ []

abbrev type_not_allowed : Exception
type_not_allowed =
    http 400
      "File type not allowed. Allowed types: image/jpeg, image/png, image/gif, image/webp, application/pdf, text/plain"

-- `fileFilter`
pub file_filter : {C : Type 0} → MulterFile C → Result (Unit {0})
file_filter file = if includes allowed_mimes file.mimetype then ok tt else throw type_not_allowed

module _ {D C : Type 0} (F : FileSystem D C) (P : Paths) (upload_dest : String) where
  -- local-storage.service.ts
  abbrev pub named : String → MulterFile C → String
  named uuid file = str_append uuid (P.extname file.originalname)

  abbrev pub path_of : String → String
  path_of file_name = P.join upload_dest file_name

  abbrev pub uploaded : String → MulterFile C → UploadedFile
  uploaded uuid file = record {
    original_name = file.originalname;
    file_name = named uuid file;
    mime_type = file.mimetype;
    size = file.size;
    url = get_file_url (named uuid file);
    path = path_of (named uuid file);
  }

  upload : String → MulterFile C → Exec D UploadedFile
  upload uuid file = do
    F.write_file (path_of (named uuid file)) file.buffer
    pure (uploaded uuid file)

  -- The `catch` logs and throws again.
  delete : String → Exec D (Unit {0})
  delete file_name = writes (λ d. F.unlink d (path_of file_name))

  exists : String → Exec D Bool
  exists file_name =
      try_catch (do reads (λ d. F.access d (path_of file_name)); pure true) (λ _. pure false)

  pub local_storage : StorageService D C
  unfolding upload delete exists
  local_storage = record {
    upload = upload;
    delete = delete;
    get_file_url = get_file_url;
    exists = exists;
  }

  -- upload.service.ts
  pub upload_file : String → Option (MulterFile C) → Exec D UploadedFile
  unfolding local_storage
  upload_file uuid none = raise (http 400 "No file provided")
  upload_file uuid (some file) = local_storage.upload uuid file

  -- `Promise.all`: every upload runs, whatever becomes of the others; what is thrown is the first of
  -- the list that threw.
  abbrev settled : Result UploadedFile → Result (List UploadedFile) → Result (List UploadedFile)
  settled (throw e) rest = throw e
  settled (ok r) (throw e) = throw e
  settled (ok r) (ok rest) = ok (r ∷ rest)

  pub upload_all : List (String × MulterFile C) → Exec D (List UploadedFile)
  unfolding local_storage
  upload_all [] d = (ok [], d)
  upload_all ((uuid, file) ∷ files) d =
      let first = local_storage.upload uuid file d in
      let rest = upload_all files first.1 in (settled first.0 rest.0, rest.1)

  -- Each file has the `uuid` that its upload draws.
  pub upload_files : Option (List (String × MulterFile C)) → Exec D (List UploadedFile)
  upload_files none = raise (http 400 "No files provided")
  upload_files (some []) = raise (http 400 "No files provided")
  upload_files (some (f ∷ files)) = upload_all (f ∷ files)

  pub delete_file : String → Exec D (Unit {0})
  unfolding local_storage
  delete_file file_name = do
    found ← local_storage.exists file_name
    if found then local_storage.delete file_name else raise (http 400 "File not found")

  -- upload.controller.ts, with multer's verdicts: on a file's size, and on the number and the sizes of
  -- files.
  module _ (file_size : ℕ → MulterFile C → Result (Unit {0}))
      (collected : ℕ → ℕ → List (MulterFile C) → Result (Unit {0})) where
    abbrev checked : ℕ → Option (MulterFile C) → Result (Unit {0})
    checked limit none = ok tt
    checked limit (some file) = elim (file_filter file) [
      | ok done ↦ file_size limit file
      | throw e ↦ throw e
    ]

    pub upload_single : ℕ → String → Option (MulterFile C) → Exec D UploadedFile
    unfolding file_filter
    upload_single limit uuid file = do reads (λ _. checked limit file); upload_file uuid file

    pub upload_multiple : ℕ → Option (List (String × MulterFile C)) → Exec D (List UploadedFile)
    upload_multiple limit none = upload_files none
    upload_multiple limit (some files) = do
      reads (λ _. collected 10 limit (map (λ x. x.1) files))
      upload_files (some files)

  -- `downloadFile`: what `sendFile` is given, which answers with the file at the path from the root on.
  pub download_file : String → Exec D SentFile
  download_file file_name = do
    found ← try_catch (do reads (λ d. F.access d (path_of file_name)); pure true) (λ _. pure false)
    if found
        then pure (record { path = path_of file_name; root = "." })
        else raise (http 400 "File not found")
