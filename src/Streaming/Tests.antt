-- ===== src/Streaming/Tests.antt =====
-- Streams of a small file.
use Prim.Native.String.{◌++◌ as str_append}
use backend_boilerplate.Base.{
  suc, ◌-◌, length, ap, arith, ◌==◌, Bool, Exception, List, Option, Result, String, [], ap, arith,
  error, false, http, if◌then◌else◌, leb, length, none, ok, refl, some, suc, throw, true, ℕ, ◌-◌,
  ◌<◌, ◌∙◌, ◌∷◌, ◌≡◌, ◌≢◌, ◌≤◌,
}
use backend_boilerplate.Pagination.{take, drop}
use backend_boilerplate.Streaming.Numbers.{pos, negsuc, Number, parse_int, ◌+ℤ◌, ◌-ℤ◌}
use backend_boilerplate.Streaming.Texts.{range_of, last_of, spelled, stream_video-bytes}
use backend_boilerplate.Pagination.{take, drop}
use backend_boilerplate.Streaming.{
  Reply, content_range, accept_ranges, content_length, content_type, Files, start_of, end_of,
  stream_video, stream_file, ticks, tick,
}
use backend_boilerplate.Streaming.Ranges.{sliced}

-- The file system is what its one file holds, if it is there.
abbrev Disk : Type 0
Disk = Option (List ℕ)

abbrev whole : Disk → Result (List ℕ)
whole none = throw (error "ENOENT")
whole (some bytes) = ok bytes

abbrev size : Disk → Result ℕ
size none = throw (error "ENOENT")
size (some bytes) = ok (length bytes)

abbrev there : Disk → Bool
there none = false
there (some bytes) = true

abbrev out_of_range : Exception
out_of_range = error "ERR_OUT_OF_RANGE"

abbrev cut : Disk → Number → Number → Result (List ℕ)
cut (some bytes) (some (pos s)) (some (pos e)) =
    if leb s e then ok (take (suc e - s) (drop s bytes)) else throw out_of_range
cut _ _ _ = throw out_of_range

cut-order : (d : Disk) (s e : ℕ) → e < s → cut d (some (pos s)) (some (pos e)) ≡ throw out_of_range
cut-order none s e h = refl
cut-order (some bytes) s e h = ground arith

cut-nan : (d : Disk) (e : Number) → cut d none e ≡ throw out_of_range
cut-nan none e = refl
cut-nan (some bytes) e = refl

cut-within :
    (bytes : List ℕ) (s e : ℕ)
    → s ≤ e
    → cut (some bytes) (some (pos s)) (some (pos e)) ≡ ok (take (suc e - s) (drop s bytes))
cut-within bytes s e h = ground arith

abbrev files : Files Disk
files = record {
  content = λ d p. d;
  exists_sync = λ d p. there d;
  stat_size = λ d p. size d;
  create_read_stream = λ d p. whole d;
  create_range_stream = λ d p s e. cut d s e;
  exists_sync_lem = λ d p h.
      elim d as (λ o. o ≢ none → there o ≡ true) [
        | none ↦ λ h. absurd (h refl)
        | some b ↦ λ h. refl
      ]
        h;
  stat_size_lem = λ d p bytes e. ap size e;
  create_read_stream_lem = λ d p bytes e. ap whole e;
  create_range_stream_lem = λ d p bytes s e held h.
      ap (λ o. cut o (some (pos s)) (some (pos e))) held ∙ cut-within bytes s e h;
  create_range_stream_nan = λ d p e. (out_of_range, cut-nan d e);
  create_range_stream_order = λ d p s e h. (out_of_range, cut-order d s e h);
}

abbrev join : String → String → String
join a b = str_append a (str_append "/" b)

abbrev clip : Disk
clip = some (10 ∷ 11 ∷ 12 ∷ 13 ∷ 14 ∷ [])

run : Unit {0}
unfolding stream_video stream_file start_of end_of ◌+ℤ◌ ◌-ℤ◌ ticks tick parse_int
run = tt

streaming_tests :
    (stream_video files join "uploads" "a.mp4" (some "bytes=1-3") clip
      ≡ (ok (sliced files join "uploads" (10 ∷ 11 ∷ 12 ∷ 13 ∷ 14 ∷ []) 1 3), clip))
    × (stream_video files join "uploads" "a.mp4" (some "bytes=3-") clip
        ≡ (ok (sliced files join "uploads" (10 ∷ 11 ∷ 12 ∷ 13 ∷ 14 ∷ []) 3 4), clip))
    × ((stream_video files join "uploads" "a.mp4" none none).0 ≡ throw (http 404 "File not found"))
    × ((stream_video files join "uploads" "a.mp4" (some "bytes=3-1") clip).0 ≡ throw out_of_range)
    × (parse_int " +12x" ≡ some (pos 12))
    × (parse_int "-5" ≡ some (negsuc 4))
    × (end_of 0 "bytes=0-" ≡ some (negsuc 0))
unfolding run
streaming_tests = (refl, refl, refl, refl, refl, refl, refl)

abbrev five : List ℕ
five = 10 ∷ 11 ∷ 12 ∷ 13 ∷ 14 ∷ []

stream_video-bytes_example :
    (r : Reply) × (stream_video files join "uploads" "a.mp4" (some (range_of "1" "")) clip
      ≡ (ok r, clip))
    × (r.status ≡ 206)
    × (r.body ≡ take (suc (last_of 5 "") - spelled 0 "1") (drop (spelled 0 "1") five))
    × (length r.body ≡ suc (last_of 5 "") - spelled 0 "1")
    × (r.headers
        ≡ content_range (some (pos (spelled 0 "1"))) (some (pos (last_of 5 ""))) (some (pos 5))
          ∷ accept_ranges "bytes"
          ∷ content_length (some (pos (length r.body)))
          ∷ content_type "video/mp4"
          ∷ [])
stream_video-bytes_example =
    stream_video-bytes files join "uploads" "a.mp4" "1" "" clip five refl
      (λ e. cc (ap (λ t. t == "1") e)) (omega arith, omega arith, tt) tt (omega arith) (omega arith)
