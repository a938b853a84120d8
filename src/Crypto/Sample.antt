-- ===== src/Crypto/Sample.antt =====
-- A simple cipher: bytes are texts, a byte is printed as two characters of which
-- none is a colon, and the ciphertext is the printed plaintext.
use Prim.Native.Char.{Char, code}
use text.Mathlib.TextEquality.{Char-path}
use backend_boilerplate.Base.{
  Bool, Bool-cases, Ensures, Exception, Result, String, ap, arith, eq_iff, error, if◌then◌else◌,
  inl, inr, nat_eq, ok, refl, throw, true, ◌==◌, ◌↔◌, ◌≡◌, ◌≢◌,
}
use backend_boilerplate.Crypto.{utf8_length, lacks_colon, NodeCrypto}

two : Char → String → String
two c s =
    if nat_eq (code c) b':'
    then String.◌∷◌ "0" (String.◌∷◌ "0" s)
    else String.◌∷◌ "1" (String.◌∷◌ c s)

unfoldable pub printed : String → String
unfolding two
printed String.[] = String.[]
printed (String.◌∷◌ c s) = two c (printed s)

abbrev read_two : Char → Char → Char
read_two m c = if nat_eq (code m) b'0' then ":" else c

unfoldable pub read : String → String
read String.[] = String.[]
read (String.◌∷◌ m String.[]) = String.[]
read (String.◌∷◌ m (String.◌∷◌ c s)) = String.◌∷◌ (read_two m c) (read s)

pub read-printed : (s : String) → read (printed s) ≡ s
unfolding read printed
read-printed String.[] = refl
read-printed (String.◌∷◌ c s) = elim (Bool-cases (nat_eq (code c) b':')) [
  | inl colon ↦ rw colon (λ i. String.◌∷◌ (Char-path ":" c (ground arith) i) (read-printed s i))
  | inr other ↦ rw other (ap (String.◌∷◌ c) (read-printed s))
]

pub printed_digits : (s : String) → lacks_colon (printed s) ≡ true
unfolding printed lacks_colon
printed_digits String.[] = refl
printed_digits (String.◌∷◌ c s) = elim (Bool-cases (nat_eq (code c) b':')) [
  | inl colon ↦ rw colon (printed_digits s)
  | inr other ↦ rw (other, other) (printed_digits s)
]

abbrev pub seal : (key iv plaintext : String) → Result (String × String)
seal key iv p =
    if nat_eq (utf8_length key) 32
    then ok (printed p, iv)
    else throw (error "ERR_CRYPTO_INVALID_KEYLEN")

abbrev pub compared : String → String → Result Bool
compared a b =
    if nat_eq (utf8_length a) (utf8_length b)
    then ok (a == b)
    else throw (error "ERR_CRYPTO_TIMING_SAFE_EQUAL_LENGTH")

pub seal_digits : (key iv p : String) → Ensures (λ r. lacks_colon r.0 ≡ true) (seal key iv p)
seal_digits key iv p = ground (arith, printed_digits p)

pub unseal-seal :
    (key iv p : String)
    → Ensures (λ r. ◌≡◌ {A = Result String} (ok (read r.0)) (ok p)) (seal key iv p)
unseal-seal key iv p = ground (arith, read-printed p)

pub seal_key :
    (key iv p : String) → utf8_length key ≢ 32 → (x : Exception) × (seal key iv p ≡ throw x)
seal_key key iv p h = (error "ERR_CRYPTO_INVALID_KEYLEN", ground (arith, h))

pub compared_length :
    (a b : String) → utf8_length a ≢ utf8_length b → (x : Exception) × (compared a b ≡ throw x)
compared_length a b h = (error "ERR_CRYPTO_TIMING_SAFE_EQUAL_LENGTH", ground (arith, h))

pub compared_lem :
    (a b : String)
    → utf8_length a ≡ utf8_length b
    → (t : Bool) × (compared a b ≡ ok t) × ((t ≡ true) ↔ (a ≡ b))
compared_lem a b e = (a == b, ground (arith, e), eq_iff a b)

abbrev pub plain_crypto : NodeCrypto String
plain_crypto = record {
  byte_length = utf8_length;
  from_utf8 = λ s. s;
  to_hex = printed;
  from_hex = read;
  seal = seal;
  unseal = λ key iv tag c. ok (read c);
  sha256 = λ s. s;
  timing_safe_equal = compared;
  byte_length-from_utf8 = λ s. refl;
  from_utf8_injective = λ s t e. e;
  from_hex-to_hex = read-printed;
  to_hex_digits = printed_digits;
  seal_digits = seal_digits;
  unseal-seal = unseal-seal;
  seal_key = seal_key;
  timing_safe_equal_length = compared_length;
  timing_safe_equal_lem = compared_lem;
}

-- A key.
abbrev pub letters : String
letters = "abcdefghijklmnopqrstuvwxyzabcdef"
