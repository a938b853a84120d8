-- ===== src/Crypto/Tests.antt =====
-- The service over the simple cipher.
use backend_boilerplate.Base.{String, error, false, ok, refl, some, throw, ◌≡◌}
use backend_boilerplate.Crypto.{
  split_colon, utf8_length, utf16_length, encrypt, decrypt, constructed, constant_time_compare,
}
use backend_boilerplate.Crypto.Sample.{plain_crypto, printed, read, letters}
use backend_boilerplate.Crypto.Framing.{decrypt-encrypt}

-- 32 code units of which two take two bytes.
abbrev accented : String
accented = "éécdefghijklmnopqrstuvwxyzabcdef"

run : Unit {0}
unfolding printed read encrypt decrypt split_colon utf8_length utf16_length constructed
    constant_time_compare
run = tt

crypto_tests :
    (encrypt plain_crypto letters (ok "iv") "a:b" ≡ ok "1i1v:1i1v:1a001b")
    × (decrypt plain_crypto letters "1i1v:1i1v:1a001b" ≡ ok "a:b")
    × (decrypt plain_crypto letters "1i1v:1a" ≡ throw (error "Decryption failed"))
    × (encrypt plain_crypto letters (ok "iv") "" ≡ ok "")
    × (constructed plain_crypto (some letters) ≡ ok letters)
    × (constructed plain_crypto (some "short")
        ≡ throw (error "ENCRYPTION_KEY must be exactly 32 bytes"))
    × (constant_time_compare plain_crypto "abc" "abd" ≡ ok false)
unfolding run
crypto_tests = (refl, refl, refl, refl, refl, refl, refl)

decrypt-encrypt_example : decrypt plain_crypto letters "1i1v:1i1v:1a001b" ≡ ok "a:b"
decrypt-encrypt_example =
    decrypt-encrypt plain_crypto letters (ok "iv") "a:b" "1i1v:1i1v:1a001b" crypto_tests.0
