-- ===== src/Streaming/Texts.antt =====
-- Range headers as texts: `bytes=`, a number, a dash and a number or nothing.
use Prim.Native.Char.{code}
use Prim.Native.String.{◌++◌ as str_append}
use text.Mathlib.TextLemmas.{nil-append, cons-append, cons-ne-nil}
use backend_boilerplate.Base.{
  text_length-append, text_length, ◌∷◌, suc, ok, length, eq_iff, List, truthy, remove_first-append,
  ◌<◌, String, [], ap, arith, false, leb, nat_eq, refl, some, true, ℕ, ◌&&◌, ◌*◌, ◌+◌, ◌-◌, ◌||◌,
  ◌≡◌, ◌≢◌, ◌≤◌,
}
use backend_boilerplate.Streaming.Numbers.{pos, ◌-ℤ◌, diff, is_digit, leading, unsigned, parse_int}
use backend_boilerplate.Pagination.{take, drop}
use backend_boilerplate.Streaming.{
  Reply, content_range, accept_ranges, content_length, content_type, Files, until_dash, after_dash,
  start_of, end_of, stream_video,
}
use backend_boilerplate.Streaming.Ranges.{sliced, stream_video-range}

abbrev pub Digits : String → Type 0
Digits String.[] = Unit
Digits (String.◌∷◌ c s) = (b'0' ≤ code c) × (code c ≤ b'9') × Digits s

-- The number that decimal digits spell.
abbrev pub spelled : ℕ → String → ℕ
spelled n String.[] = n
spelled n (String.◌∷◌ c s) = spelled (n * 10 + (code c - b'0')) s

leading-Digits : (n : ℕ) (s : String) → Digits s → leading (some n) s ≡ some (spelled n s)
unfolding leading
leading-Digits n String.[] h = refl
leading-Digits n (String.◌∷◌ c s) (low, high, h) =
    let here : is_digit (code c) ≡ true = ground arith in
    rw here (leading-Digits (n * 10 + (code c - b'0')) s h)

parse_int-Digits : (s : String) → s ≢ "" → Digits s → parse_int s ≡ some (pos (spelled 0 s))
unfolding parse_int unsigned leading
parse_int-Digits String.[] some_digit h = absurd (some_digit refl)
parse_int-Digits (String.◌∷◌ c s) some_digit (low, high, h) =
    let here : is_digit (code c) ≡ true = ground arith in
    let no_space : (nat_eq (code c) 32 || (leb 9 (code c) && leb (code c) 13)) ≡ false =
      ground arith in
    let no_minus : nat_eq (code c) b'-' ≡ false = ground arith in
    let no_plus : nat_eq (code c) b'+' ≡ false = ground arith in
    rw (no_space, no_minus, no_plus, here) (rw (leading-Digits (0 + (code c - b'0')) s h) refl)

until_dash-Digits : (s t : String) → Digits s → until_dash (str_append s (str_append "-" t)) ≡ s
unfolding until_dash
until_dash-Digits String.[] t h = rw (nil-append (str_append "-" t), cons-append) refl
until_dash-Digits (String.◌∷◌ c s) t (low, high, h) =
    let other : nat_eq (code c) b'-' ≡ false = ground arith in
    rw (cons-append c s (str_append "-" t), other) (ap (String.◌∷◌ c) (until_dash-Digits s t h))

until_dash_all : (s : String) → Digits s → until_dash s ≡ s
unfolding until_dash
until_dash_all String.[] h = refl
until_dash_all (String.◌∷◌ c s) (low, high, h) =
    let other : nat_eq (code c) b'-' ≡ false = ground arith in
    rw other (ap (String.◌∷◌ c) (until_dash_all s h))

after_dash-Digits :
    (s t : String) → Digits s → after_dash (str_append s (str_append "-" t)) ≡ some (until_dash t)
unfolding after_dash
after_dash-Digits String.[] t h =
    rw (nil-append (str_append "-" t), cons-append) (ap (λ u. some (until_dash u)) (nil-append t))
after_dash-Digits (String.◌∷◌ c s) t (low, high, h) =
    let other : nat_eq (code c) b'-' ≡ false = ground arith in
    rw (cons-append c s (str_append "-" t), other) (after_dash-Digits s t h)

-- The last byte that a range asks for: the one after the dash, or the last one of the file.
abbrev pub last_of : ℕ → String → ℕ
last_of size String.[] = size - 1
last_of size (String.◌∷◌ c s) = spelled 0 (String.◌∷◌ c s)

abbrev pub range_of : String → String → String
range_of from to = str_append "bytes=" (str_append from (str_append "-" to))

truthy_range : (from to : String) → truthy (range_of from to) ≡ true
truthy_range from to =
    let t : String = str_append from (str_append "-" to) in
    let some_unit : range_of from to ≢ "" = λ e.
      let size : text_length (str_append "bytes=" t) ≡ 0 = ap text_length e in
      omega (arith, size, text_length-append "bytes=" t) in
    ground (arith, some_unit, eq_iff (range_of from to) "")

start_of_range :
    (from to : String)
    → from ≢ ""
    → Digits from
    → start_of (range_of from to) ≡ some (pos (spelled 0 from))
unfolding start_of
start_of_range from to some_digit h =
    rw
      (
        remove_first-append "bytes=" (str_append from (str_append "-" to)),
        until_dash-Digits from to h,
      )
      (parse_int-Digits from some_digit h)

end_of_range :
    (size : ℕ) (from to : String)
    → Digits from
    → Digits to
    → 0 < size
    → end_of size (range_of from to) ≡ some (pos (last_of size to))
unfolding end_of ◌-ℤ◌ diff
end_of_range size from String.[] h k some_byte =
    let one : leb 1 size ≡ true = ground arith in
    rw
      (
        remove_first-append "bytes=" (str_append from (str_append "-" "")),
        after_dash-Digits from "" h,
        one,
      )
      refl
end_of_range size from (String.◌∷◌ c s) h k some_byte =
    let to : String = String.◌∷◌ c s in
    let some_digit : to ≢ "" = cons-ne-nil c s in
    let there : truthy to ≡ true = ground (arith, some_digit, eq_iff to "") in
    rw
      (
        remove_first-append "bytes=" (str_append from (str_append "-" to)),
        after_dash-Digits from to h,
        until_dash_all to k,
        there,
      )
      (parse_int-Digits to some_digit k)

module _ {D : Type 0} (F : Files D) (join : String → String → String) (dest : String) where
  -- A request for `bytes=a-b`, or for `bytes=a-`, of a file with a last byte asked for that is in the
  -- file and not before the first, is answered with status 206 and exactly the bytes from a to b, or
  -- to the end, and with their number as the length.
  pub stream_video-bytes :
      (file_name from to : String) (d : D) (bytes : List ℕ)
      → F.content d (join dest file_name) ≡ some bytes
      → from ≢ ""
      → Digits from
      → Digits to
      → spelled 0 from ≤ last_of (length bytes) to
      → last_of (length bytes) to < length bytes
      → (r : Reply) × (stream_video F join dest file_name (some (range_of from to)) d ≡ (ok r, d))
        × (r.status ≡ 206)
        × (r.body
            ≡ take (suc (last_of (length bytes) to) - spelled 0 from) (drop (spelled 0 from) bytes))
        × (length r.body ≡ suc (last_of (length bytes) to) - spelled 0 from)
        × (r.headers
            ≡ content_range
                (some (pos (spelled 0 from)))
                (some (pos (last_of (length bytes) to)))
                (some (pos (length bytes)))
              ∷ accept_ranges "bytes"
              ∷ content_length (some (pos (length r.body)))
              ∷ content_type "video/mp4"
              ∷ [])
  stream_video-bytes file_name from to d bytes held some_digit h k ordered inside =
      let s : ℕ = spelled 0 from in
      let e : ℕ = last_of (length bytes) to in
      let given : truthy (range_of from to) ≡ true = truthy_range from to in
      let (reply, size) =
        stream_video-range F join dest file_name (range_of from to) d bytes s e held given
          (start_of_range from to some_digit h)
          (end_of_range (length bytes) from to h k (omega arith)) ordered inside in
      (sliced F join dest bytes s e, reply, refl, refl, size, rw size refl)
