-- ===== src/Crypto/Compare.antt =====
-- Comparison in constant time, and the key: lengths in code units against lengths in bytes.
use Prim.Native.Char.{code}
use backend_boilerplate.Base.{
  Bool-cases, Exception, Result, String, ap, arith, eq_iff, error, false, inl, inr, nat_eq, ok,
  refl, some, sym, throw, true, truthy, ◌<◌, ◌==◌, ◌∙◌, ◌≡◌, ◌≢◌,
}
use backend_boilerplate.Crypto.{
  NodeCrypto, utf16_length, utf8_length, constant_time_compare, constructed, encrypt,
}

-- Every code point is below 128.
abbrev pub IsAscii : String → Type 0
IsAscii String.[] = Unit {0}
IsAscii (String.◌∷◌ c s) = (code c < 128) × IsAscii s

ascii_lengths : (s : String) → IsAscii s → utf8_length s ≡ utf16_length s
unfolding utf8_length utf16_length
ascii_lengths String.[] h = refl
ascii_lengths (String.◌∷◌ c s) (small, h) = ground (arith, ascii_lengths s h)

module _ {Buffer : Type 0} (N : NodeCrypto Buffer) where
  same_bytes :
      (a b : String)
      → utf8_length a ≡ utf8_length b
      → N.timing_safe_equal (N.from_utf8 a) (N.from_utf8 b) ≡ ok (a == b)
  same_bytes a b e =
      let lengths : N.byte_length (N.from_utf8 a) ≡ N.byte_length (N.from_utf8 b) =
        N.byte_length-from_utf8 a ∙ e ∙ sym (N.byte_length-from_utf8 b) in
      let (t, answer, decides) = N.timing_safe_equal_lem (N.from_utf8 a) (N.from_utf8 b) lengths in
      elim (Bool-cases (a == b)) [
        | inl same ↦
            let yes_equal = decides.1 (ap N.from_utf8 ((eq_iff a b).0 same)) in
            rw same (answer ∙ ap ok yes_equal)
        | inr other ↦ elim (Bool-cases t) [
          | inl claimed ↦
              let equal : a ≡ b = N.from_utf8_injective a b (decides.0 claimed) in
              absurd (ground (arith, eq_iff a b))
          | inr denied ↦ rw other (answer ∙ ap ok denied)
        ]
      ]

  -- On texts of ASCII characters the comparison is equality, and never throws.
  pub constant_time_compare_ascii :
      (a b : String) → IsAscii a → IsAscii b → constant_time_compare N a b ≡ ok (a == b)
  unfolding constant_time_compare
  constant_time_compare_ascii a b ha hb =
      elim (Bool-cases (nat_eq (utf16_length a) (utf16_length b))) [
        | inl equal ↦
            rw equal (same_bytes a b (ground (arith, ascii_lengths a ha, ascii_lengths b hb)))
        | inr different ↦
            let apart : (a == b) ≡ false = elim (Bool-cases (a == b)) [
              | inr other ↦ other
              | inl same ↦ absurd (ground (arith, ap utf16_length ((eq_iff a b).0 same)))
            ] in
            ground arith
      ]

  -- Two texts of one length whose encodings differ in length make the comparison throw, where it
  -- should answer that they differ.
  pub constant_time_compare-throws :
      (a b : String)
      → utf16_length a ≡ utf16_length b
      → utf8_length a ≢ utf8_length b
      → (x : Exception) × (constant_time_compare N a b ≡ throw x)
  unfolding constant_time_compare
  constant_time_compare-throws a b same other =
      let (x, e) =
        N.timing_safe_equal_length (N.from_utf8 a) (N.from_utf8 b)
          (λ e. other (sym (N.byte_length-from_utf8 a) ∙ e ∙ N.byte_length-from_utf8 b)) in
      (x, ground (arith, e))

  -- A key of 32 characters passes the constructor even if it has not 32 bytes; then every encryption
  -- of a text fails.
  pub accepted_key-fails :
      (setting : String) (random : Result Buffer) (plaintext : String)
      → utf16_length setting ≡ 32
      → utf8_length setting ≢ 32
      → truthy setting ≡ true
      → truthy plaintext ≡ true
      → (constructed N (some setting) ≡ ok (N.from_utf8 setting))
        × (encrypt N (N.from_utf8 setting) random plaintext ≡ throw (error "Encryption failed"))
  unfolding constructed encrypt
  accepted_key-fails setting (throw x) plaintext units bytes given text =
      (ground arith, ground arith)
  accepted_key-fails setting (ok iv) plaintext units bytes given text =
      let (x, e) =
        N.seal_key (N.from_utf8 setting) iv plaintext
          (λ e. bytes (sym (N.byte_length-from_utf8 setting) ∙ e)) in
      (ground arith, ground (arith, e))
