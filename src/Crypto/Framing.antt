-- ===== src/Crypto/Framing.antt =====
-- The text of an encryption and its way back.
use Prim.Native.String.{◌++◌ as str_append}
use text.Mathlib.TextLemmas.{nil-append, cons-append, append-eq-nil_iff}
use backend_boilerplate.Base.{
  Ensures, eq_iff, false, ◌≢◌, refl, inl, inr, Bool-cases, Result-cases, Result, ok, throw, String,
  [], ap, arith, refl, true, truthy, ◌∙◌, ◌∷◌, ◌≡◌,
}
use backend_boilerplate.Crypto.{NodeCrypto, lacks_colon, split_colon, framed, encrypt, decrypt}
use backend_boilerplate.Users.{PhoneCipher}

split_colon-append :
    (a t : String)
    → lacks_colon a ≡ true
    → split_colon (str_append a (str_append ":" t)) ≡ a ∷ split_colon t
unfolding split_colon lacks_colon
split_colon-append String.[] t h = rw (nil-append, cons-append, nil-append) refl
split_colon-append (String.◌∷◌ c s) t h =
    rw (cons-append c s (str_append ":" t)) (ground (arith, split_colon-append s t))

split_colon_whole : (a : String) → lacks_colon a ≡ true → split_colon a ≡ a ∷ []
unfolding split_colon lacks_colon
split_colon_whole String.[] h = refl
split_colon_whole (String.◌∷◌ c s) h = ground (arith, split_colon_whole s)

split_colon-framed :
    (a b c : String)
    → lacks_colon a ≡ true
    → lacks_colon b ≡ true
    → lacks_colon c ≡ true
    → split_colon (framed a b c) ≡ a ∷ b ∷ c ∷ []
split_colon-framed a b c ha hb hc =
    split_colon-append a (str_append b (str_append ":" c)) ha
    ∙ ap (◌∷◌ a) (split_colon-append b c hb ∙ ap (◌∷◌ b) (split_colon_whole c hc))

framed-truthy : (a b c : String) → truthy (framed a b c) ≡ true
framed-truthy a b c =
    let rest : String = str_append b (str_append ":" c) in
    let whole : framed a b c ≢ "" = λ e.
      let colon : ◌≡◌ {A = String} ":" "" = (append-eq-nil_iff.0 (append-eq-nil_iff.0 e).1).0 in
      ground (arith, colon, eq_iff ":" "") in
    ground (arith, eq_iff (framed a b c) "", whole)

truthy-ne : (s : String) → truthy s ≡ false → s ≡ ""
truthy-ne s e = ground (arith, eq_iff s "")

module _ {Buffer : Type 0} (N : NodeCrypto Buffer) (key : Buffer) where
  -- A text that was encrypted is decrypted to itself, the empty text included.
  pub decrypt-encrypt :
      (random : Result Buffer) (plaintext ciphertext : String)
      → encrypt N key random plaintext ≡ ok ciphertext
      → decrypt N key ciphertext ≡ ok plaintext
  unfolding encrypt decrypt
  decrypt-encrypt (throw x) plaintext ciphertext e = elim (Bool-cases (truthy plaintext)) [
    | inl given ↦ absurd (ground arith)
    | inr empty ↦
        let both : ciphertext ≡ "" = ground arith in rw (both, truthy-ne plaintext empty) refl
  ]
  decrypt-encrypt (ok iv) plaintext ciphertext e = elim (Bool-cases (truthy plaintext)) [
    | inr empty ↦
        let both : ciphertext ≡ "" = ground arith in rw (both, truthy-ne plaintext empty) refl
    | inl given ↦ elim (Result-cases (N.seal key iv plaintext)) [
      | inr (x, bad) ↦ absurd (ground arith)
      | inl (r, sealed_as) ↦
          let shape : ciphertext ≡ framed (N.to_hex iv) (N.to_hex r.1) r.0 = ground arith in
          let digits : lacks_colon r.0 ≡ true = ground (arith, N.seal_digits key iv plaintext) in
          let parts =
            split_colon-framed (N.to_hex iv) (N.to_hex r.1) r.0 (N.to_hex_digits iv)
              (N.to_hex_digits r.1) digits in
          ground (
            arith,
            framed-truthy (N.to_hex iv) (N.to_hex r.1) r.0,
            parts,
            N.from_hex-to_hex iv,
            N.from_hex-to_hex r.1,
            N.unseal-seal key iv plaintext,
          )
    ]
  ]

  pub encrypt-truthy :
      (random : Result Buffer) (plaintext ciphertext : String)
      → truthy plaintext ≡ true
      → encrypt N key random plaintext ≡ ok ciphertext
      → truthy ciphertext ≡ true
  unfolding encrypt
  encrypt-truthy (throw x) plaintext ciphertext given e = absurd (ground arith)
  encrypt-truthy (ok iv) plaintext ciphertext given e =
      elim (Result-cases (N.seal key iv plaintext)) [
        | inr (x, bad) ↦ absurd (ground arith)
        | inl (r, sealed_as) ↦ ground (arith, framed-truthy (N.to_hex iv) (N.to_hex r.1) r.0)
      ]

  pub Ensures_intro :
      {A : Type 0} (P : A → Type 0) (r : Result A) → ((a : A) → r ≡ ok a → P a) → Ensures P r
  Ensures_intro P (ok a) h = h a refl
  Ensures_intro P (throw x) h = tt

  -- The service as what the user and the auth service are injected with.
  abbrev pub cipher : Result Buffer → PhoneCipher
  cipher random = record {
    encrypt = encrypt N key random;
    decrypt = decrypt N key;
    decrypt-encrypt = λ p.
        Ensures_intro (λ c. decrypt N key c ≡ ok p) (encrypt N key random p)
          (λ c e. decrypt-encrypt random p c e);
    encrypt_truthy = λ p given.
        Ensures_intro (λ c. truthy c ≡ true) (encrypt N key random p)
          (λ c e. encrypt-truthy random p c given e);
  }
