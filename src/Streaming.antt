-- ===== src/Streaming.antt =====
-- src/infra/streaming/presentation/streaming.controller.ts. The file system and node's `path` are
-- parameters; a reply holds its headers in the order in which they are set.
pub mod Numbers
mod Ranges
mod Texts
mod Progress
mod Tests
use Prim.Native.Char.{code}
use Prim.Native.String
use text.Mathlib.Text.{starts_with}
use backend_boilerplate.Base.{
  remove_first, drop_text, Bool, Exception, Exec, List, Option, Result, String, [], http,
  if◌then◌else◌, leb, length, nat_eq, none, not, ok, reads, some, suc, throw, true, truthy, zero, ℕ,
  ◌*◌, ◌+◌, ◌-◌, ◌<◌, ◌>>=◌, ◌>>◌, ◌∷◌, ◌≡◌, ◌≢◌, ◌≤◌,
}
use backend_boilerplate.Pagination.{take, drop}
use Numbers.{ℤ, pos, negsuc, Number, plus, minus, parse_int}

pub data Header : Type 0 where
  content_type content_disposition accept_ranges : String → Header
  content_length : Number → Header
  content_range : (start end size : Number) → Header

pub record Reply : Type 0 where
  pub status : ℕ
  pub headers : List Header
  pub body : List ℕ

-- `fs`, for reading: the bytes of a file at a path, which only the laws name. A stream is what it
-- delivers, or the exception that ends it.
pub record Files (D : Type 0) : Type 0 where
  pub content : D → String → Option (List ℕ)
  pub exists_sync : D → String → Bool
  pub stat_size : D → String → Result ℕ
  pub create_read_stream : D → String → Result (List ℕ)
  -- with the options `start` and `end`
  pub create_range_stream : D → String → (start end : Number) → Result (List ℕ)
  pub exists_sync_lem : (d : D) (p : String) → content d p ≢ none → exists_sync d p ≡ true
  pub stat_size_lem :
      (d : D) (p : String) (bytes : List ℕ)
      → content d p ≡ some bytes
      → stat_size d p ≡ ok (length bytes)
  pub create_read_stream_lem :
      (d : D) (p : String) (bytes : List ℕ)
      → content d p ≡ some bytes
      → create_read_stream d p ≡ ok bytes
  pub create_range_stream_lem :
      (d : D) (p : String) (bytes : List ℕ) (s e : ℕ)
      → content d p ≡ some bytes
      → s ≤ e
      → create_range_stream d p (some (pos s)) (some (pos e)) ≡ ok (take (suc e - s) (drop s bytes))
  -- ERR_OUT_OF_RANGE
  pub create_range_stream_nan :
      (d : D) (p : String) (e : Number)
      → (x : Exception) × (create_range_stream d p none e ≡ throw x)
  pub create_range_stream_order :
      (d : D) (p : String) (s e : ℕ)
      → e < s
      → (x : Exception) × (create_range_stream d p (some (pos s)) (some (pos e)) ≡ throw x)

-- `replace(/bytes=/, '')`
abbrev without_bytes : String → String
without_bytes range = remove_first "bytes=" range

-- `split('-')`: the part before the first dash, and the one up to the next.
pub until_dash : String → String
until_dash String.[] = String.[]
until_dash (String.◌∷◌ c s) =
    let rest = until_dash s in if nat_eq (code c) b'-' then String.[] else String.◌∷◌ c rest

pub after_dash : String → Option String
unfolding until_dash
after_dash String.[] = none
after_dash (String.◌∷◌ c s) =
    let rest = after_dash s in if nat_eq (code c) b'-' then some (until_dash s) else rest

-- `start`
unfoldable pub start_of : String → Number
unfolding remove_first until_dash parse_int
start_of range = parse_int (until_dash (without_bytes range))

abbrev end_or : ℕ → Option String → Number
end_or file_size none = minus (some (pos file_size)) (some (pos 1))
end_or file_size (some part) =
    if truthy part then parse_int part else minus (some (pos file_size)) (some (pos 1))

-- `end`
unfoldable pub end_of : ℕ → String → Number
unfolding after_dash remove_first parse_int
end_of file_size range = end_or file_size (after_dash (without_bytes range))

module _ {D : Type 0} (F : Files D) (join : String → String → String) (upload_dest : String) where
  abbrev found : String → D → Result ℕ
  found path d =
      if F.exists_sync d path then F.stat_size d path else throw (http 404 "File not found")

  abbrev replied : (List ℕ → Reply) → Result (List ℕ) → Result Reply
  replied f (ok bytes) = ok (f bytes)
  replied f (throw e) = throw e

  pub stream_file : String → Exec D Reply
  stream_file file_name = do
    file_size ← reads (found (join upload_dest file_name))
    reads (λ d.
        replied
          (λ bytes. record {
            status = 200;
            headers =
                content_type "application/octet-stream"
                ∷ content_disposition file_name
                ∷ content_length (some (pos file_size))
                ∷ [];
            body = bytes;
          })
          (F.create_read_stream d (join upload_dest file_name)))

  abbrev partial : ℕ → Number → Number → List ℕ → Reply
  partial file_size start end bytes = record {
    status = 206;
    headers =
        content_range start end (some (pos file_size))
        ∷ accept_ranges "bytes"
        ∷ content_length (plus (minus end start) (some (pos 1)))
        ∷ content_type "video/mp4"
        ∷ [];
    body = bytes;
  }

  abbrev entire : ℕ → List ℕ → Reply
  entire file_size bytes = record {
    status = 200;
    headers = content_length (some (pos file_size)) ∷ content_type "video/mp4" ∷ [];
    body = bytes;
  }

  abbrev ranged : String → ℕ → Option String → D → Result Reply
  ranged path file_size none d = replied (entire file_size) (F.create_read_stream d path)
  ranged path file_size (some range) d =
      if truthy range
      then replied (partial file_size (start_of range) (end_of file_size range))
          (F.create_range_stream d path (start_of range) (end_of file_size range))
      else replied (entire file_size) (F.create_read_stream d path)

  -- With the request's `Range` header.
  pub stream_video : String → Option String → Exec D Reply
  stream_video file_name range = do
    file_size ← reads (found (join upload_dest file_name))
    reads (ranged (join upload_dest file_name) file_size range)

-- What a message of the progress stream holds, less its id and its line for humans.
pub record ProgressEvent : Type 0 where
  pub task_id : String
  pub progress : ℕ
  pub status : String
  pub kind : String

abbrev min : ℕ → ℕ → ℕ
min a b = if leb a b then a else b

-- The ticks share the variable.
unfoldable pub tick : String → ℕ → ProgressEvent × ℕ
tick task_id progress =
    let next : ℕ = progress + 10 in
    let is_complete = leb 100 next in
    (
      record {
        task_id = task_id;
        progress = min next 100;
        status = if is_complete then "completed" else "in_progress";
        kind = if is_complete then "complete" else "progress";
      },
      next,
    )

-- The first messages of the stream, `n` of them, from a value of the variable.
pub ticks : ℕ → String → ℕ → List ProgressEvent
unfolding tick
ticks zero task_id progress = []
ticks (suc n) task_id progress =
    (tick task_id progress).0 ∷ ticks n task_id (tick task_id progress).1
