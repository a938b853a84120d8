-- ===== src/Crypto.antt =====
-- src/shared/crypto/crypto.service.ts. What node's `crypto` and `Buffer` do is a parameter.
pub mod Framing
mod Compare
pub mod Sample
mod Tests
use Prim.Native.Char.{Char, code}
use Prim.Native.String
use Prim.Native.String.{◌++◌ as str_append}
use backend_boilerplate.Base.{
  Bool, Ensures, Exception, List, Option, Result, String, [], error, false, if◌then◌else◌, leb,
  length, ltb, nat_eq, none, not, ok, some, throw, true, truthy, ℕ, ◌&&◌, ◌*◌, ◌+◌, ◌>>=◌, ◌>>◌,
  ◌↔◌, ◌∷◌, ◌≡◌, ◌≢◌,
}

-- `length` of a text, in UTF-16 code units, and of its UTF-8 encoding, in bytes.
unfoldable pub utf16_length : String → ℕ
utf16_length String.[] = 0
utf16_length (String.◌∷◌ c s) = (if leb 0x10000 (code c) then 2 else 1) + utf16_length s

abbrev pub utf8_width : ℕ → ℕ
utf8_width c = if ltb c 0x80 then 1 else if ltb c 0x800 then 2 else if ltb c 0x10000 then 3 else 4

unfoldable pub utf8_length : String → ℕ
utf8_length String.[] = 0
utf8_length (String.◌∷◌ c s) = utf8_width (code c) + utf8_length s

unfoldable pub lacks_colon : String → Bool
lacks_colon String.[] = true
lacks_colon (String.◌∷◌ c s) = not (nat_eq (code c) b':') && lacks_colon s

-- node's buffers and ciphers. `seal` is createCipheriv, update, final and getAuthTag of AES-256-GCM:
-- the ciphertext in hex, and the tag. `unseal` is the way back.
pub record NodeCrypto (Buffer : Type 0) : Type 0 where
  pub byte_length : Buffer → ℕ
  pub from_utf8 : String → Buffer
  pub to_hex : Buffer → String
  pub from_hex : String → Buffer
  pub seal : (key iv : Buffer) → (plaintext : String) → Result (String × Buffer)
  pub unseal : (key iv tag : Buffer) → (ciphertext : String) → Result String
  pub sha256 : String → Buffer
  pub timing_safe_equal : Buffer → Buffer → Result Bool
  pub byte_length-from_utf8 : (s : String) → byte_length (from_utf8 s) ≡ utf8_length s
  pub from_utf8_injective : (s t : String) → from_utf8 s ≡ from_utf8 t → s ≡ t
  pub from_hex-to_hex : (b : Buffer) → from_hex (to_hex b) ≡ b
  pub to_hex_digits : (b : Buffer) → lacks_colon (to_hex b) ≡ true
  pub seal_digits :
      (key iv : Buffer) (p : String) → Ensures (λ r. lacks_colon r.0 ≡ true) (seal key iv p)
  pub unseal-seal :
      (key iv : Buffer) (p : String) → Ensures (λ r. unseal key iv r.1 r.0 ≡ ok p) (seal key iv p)
  -- ERR_CRYPTO_INVALID_KEYLEN
  pub seal_key :
      (key iv : Buffer) (p : String)
      → byte_length key ≢ 32
      → (x : Exception) × (seal key iv p ≡ throw x)
  -- ERR_CRYPTO_TIMING_SAFE_EQUAL_LENGTH
  pub timing_safe_equal_length :
      (a b : Buffer)
      → byte_length a ≢ byte_length b
      → (x : Exception) × (timing_safe_equal a b ≡ throw x)
  pub timing_safe_equal_lem :
      (a b : Buffer)
      → byte_length a ≡ byte_length b
      → (t : Bool) × (timing_safe_equal a b ≡ ok t) × ((t ≡ true) ↔ (a ≡ b))

-- `split(':')`
abbrev push : Char → List String → List String
push c [] = (String.◌∷◌ c String.[]) ∷ []
push c (p ∷ ps) = (String.◌∷◌ c p) ∷ ps

unfoldable pub split_colon : String → List String
split_colon String.[] = String.[] ∷ []
split_colon (String.◌∷◌ c s) =
    let rest = split_colon s in if nat_eq (code c) b':' then String.[] ∷ rest else push c rest

-- `${a}:${b}:${c}`
abbrev pub framed : String → String → String → String
framed a b c = str_append a (str_append ":" (str_append b (str_append ":" c)))

-- `catch (error) { … throw new Error(message) }`
abbrev failing : {A : Type 0} → String → Result A → Result A
failing message (ok a) = ok a
failing message (throw e) = throw (error message)

module _ {Buffer : Type 0} (N : NodeCrypto Buffer) where
  -- The constructor, with the setting: the key.
  unfoldable pub constructed : Option String → Result Buffer
  constructed none = throw (error "ENCRYPTION_KEY must be exactly 32 bytes")
  constructed (some key) =
      if truthy key && nat_eq (utf16_length key) 32
      then ok (N.from_utf8 key)
      else throw (error "ENCRYPTION_KEY must be exactly 32 bytes")

  abbrev framed_seal : Buffer → Result (String × Buffer) → Result String
  framed_seal iv (ok (ciphertext, tag)) = ok (framed (N.to_hex iv) (N.to_hex tag) ciphertext)
  framed_seal iv (throw e) = throw e

  abbrev sealed : Buffer → String → Result Buffer → Result String
  sealed key plaintext (ok iv) = framed_seal iv (N.seal key iv plaintext)
  sealed key plaintext (throw e) = throw e

  -- `random` is what `randomBytes(16)` draws.
  unfoldable pub encrypt : Buffer → Result Buffer → String → Result String
  encrypt key random plaintext =
      if truthy plaintext then failing "Encryption failed" (sealed key plaintext random) else ok ""

  abbrev unframed : Buffer → List String → Result String
  unframed key (iv ∷ tag ∷ ciphertext ∷ []) =
      N.unseal key (N.from_hex iv) (N.from_hex tag) ciphertext
  unframed key _ = throw (error "Invalid encrypted data format")

  unfoldable pub decrypt : Buffer → String → Result String
  unfolding split_colon
  decrypt key ciphertext =
      if truthy ciphertext
      then failing "Decryption failed" (unframed key (split_colon ciphertext))
      else ok ""

  pub hash : String → String
  hash text = N.to_hex (N.sha256 text)

  -- `random` is what `randomBytes(length)` draws.
  pub generate_token : Result Buffer → Result String
  generate_token (ok bytes) = ok (N.to_hex bytes)
  generate_token (throw e) = throw e

  pub constant_time_compare : String → String → Result Bool
  constant_time_compare a b =
      if nat_eq (utf16_length a) (utf16_length b)
      then N.timing_safe_equal (N.from_utf8 a) (N.from_utf8 b)
      else ok false
