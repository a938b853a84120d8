-- ===== src/Streaming/Ranges.antt =====
-- What a reply to a range request announces, and what it sends.
use backend_boilerplate.Base.{
  ap, Exception, List, String, [], arith, if◌then◌else◌, leb, length, none, ok, refl, some, suc,
  throw, true, truthy, zero, ℕ, ◌+◌, ◌-◌, ◌<◌, ◌∷◌, ◌≡◌, ◌≤◌,
}
use backend_boilerplate.Pagination.{take, drop}
use backend_boilerplate.Streaming.Numbers.{pos, diff, ◌+ℤ◌, ◌-ℤ◌, plus, minus}
use backend_boilerplate.Streaming.{
  content_type, accept_ranges, content_length, content_range, Reply, Files, start_of, end_of,
  stream_video,
}

slice_length :
    {A : Type 0} (xs : List A) (s n : ℕ)
    → length (take n (drop s xs)) ≡ (if leb n (length xs - s) then n else length xs - s)
slice_length [] zero zero = ground arith
slice_length [] zero (suc n) = ground arith
slice_length [] (suc s) zero = ground arith
slice_length [] (suc s) (suc n) = ground arith
slice_length (x ∷ xs) zero zero = ground arith
slice_length (x ∷ xs) zero (suc n) = ground (arith, slice_length xs zero n)
slice_length (x ∷ xs) (suc s) n = ground (arith, slice_length xs s n)

-- `end - start + 1`
chunk :
    (s e : ℕ)
    → s ≤ e
    → plus (minus (some (pos e)) (some (pos s))) (some (pos 1)) ≡ some (pos (suc e - s))
unfolding ◌+ℤ◌ ◌-ℤ◌ diff
chunk s e h =
    let ordered : leb s e ≡ true = ground arith in
    let n : e - s + 1 ≡ suc e - s = omega arith in rw ordered (ap (λ x. some (pos x)) n)

module _ {D : Type 0} (F : Files D) (join : String → String → String) (dest : String) where
  -- The reply to a range from `s` to `e` of a file of which these are the bytes.
  abbrev pub sliced : List ℕ → ℕ → ℕ → Reply
  sliced bytes s e = record {
    status = 206;
    headers =
        content_range (some (pos s)) (some (pos e)) (some (pos (length bytes)))
        ∷ accept_ranges "bytes"
        ∷ content_length (some (pos (suc e - s)))
        ∷ content_type "video/mp4"
        ∷ [];
    body = take (suc e - s) (drop s bytes);
  }

  replies :
      (file_name range : String) (d : D) (bytes : List ℕ) (s e : ℕ)
      → F.content d (join dest file_name) ≡ some bytes
      → truthy range ≡ true
      → start_of range ≡ some (pos s)
      → end_of (length bytes) range ≡ some (pos e)
      → s ≤ e
      → stream_video F join dest file_name (some range) d ≡ (ok (sliced bytes s e), d)
  unfolding stream_video
  replies file_name range d bytes s e held given from to ordered =
      let path : String = join dest file_name in
      let there = F.exists_sync_lem d path (λ none_held. ground (arith, held, none_held)) in
      rw
        (
          there,
          F.stat_size_lem d path bytes held,
          given,
          from,
          to,
          F.create_range_stream_lem d path bytes s e held ordered,
          chunk s e ordered,
        )
        refl

  -- A range within the file is answered with exactly its bytes, and with their number as the length.
  pub stream_video-range :
      (file_name range : String) (d : D) (bytes : List ℕ) (s e : ℕ)
      → F.content d (join dest file_name) ≡ some bytes
      → truthy range ≡ true
      → start_of range ≡ some (pos s)
      → end_of (length bytes) range ≡ some (pos e)
      → s ≤ e
      → e < length bytes
      → (stream_video F join dest file_name (some range) d ≡ (ok (sliced bytes s e), d))
        × (length (sliced bytes s e).body ≡ suc e - s)
  stream_video-range file_name range d bytes s e held given from to ordered inside = (
    replies file_name range d bytes s e held given from to ordered,
    ground (arith, slice_length bytes s (suc e - s)),
  )

  -- A range that ends beyond the file is not cut to it: the reply announces more bytes than it sends.
  pub stream_video-beyond :
      (file_name range : String) (d : D) (bytes : List ℕ) (s e : ℕ)
      → F.content d (join dest file_name) ≡ some bytes
      → truthy range ≡ true
      → start_of range ≡ some (pos s)
      → end_of (length bytes) range ≡ some (pos e)
      → s ≤ e
      → length bytes ≤ e
      → (stream_video F join dest file_name (some range) d ≡ (ok (sliced bytes s e), d))
        × (length (sliced bytes s e).body < suc e - s)
  stream_video-beyond file_name range d bytes s e held given from to ordered outside = (
    replies file_name range d bytes s e held given from to ordered,
    ground (arith, slice_length bytes s (suc e - s)),
  )

  -- A range without a start, such as a suffix of the file, makes the handler throw.
  pub stream_video-suffix :
      (file_name range : String) (d : D) (bytes : List ℕ)
      → F.content d (join dest file_name) ≡ some bytes
      → truthy range ≡ true
      → start_of range ≡ none
      → (x : Exception) × (stream_video F join dest file_name (some range) d ≡ (throw x, d))
  unfolding stream_video
  stream_video-suffix file_name range d bytes held given from =
      let path : String = join dest file_name in
      let there = F.exists_sync_lem d path (λ none_held. ground (arith, held, none_held)) in
      let (x, e) = F.create_range_stream_nan d path (end_of (length bytes) range) in
      (x, rw (there, F.stat_size_lem d path bytes held, given, from, e) refl)
