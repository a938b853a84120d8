-- ===== src/User/Phone.antt =====
-- An account with the cipher of src/shared/crypto: what was created is what is shown.
use backend_boilerplate.Base.{Option, Result, arith, ok, some, ◌≡◌}
use backend_boilerplate.Users.{User}
use backend_boilerplate.Crypto.{NodeCrypto}
use backend_boilerplate.Crypto.Framing.{cipher}
use backend_boilerplate.User.{CreateUserDto, World, Services, create, find_one, to_response_dto}
use backend_boilerplate.User.Account.{create-Created, clear_phone-encrypted_phone}

module _ {Us : Type 0} (S : Services Us) where
  shown_again :
      (w w' : World Us) (dto : CreateUserDto) (r : User) (o : Option User)
      → create S dto w ≡ (ok r, w')
      → (S.users).find_by_id w'.users r.id ≡ ok o
      → find_one S r.id w' ≡ (ok r, w')
  unfolding find_one to_response_dto
  shown_again w w' dto r o e found =
      let (u, x) = create-Created S w w' dto r e in
      let same_id : r.id ≡ u.id = ground arith in
      let row : o ≡ some u = ground (arith, (S.users).find_by_id_lem w'.users r.id) in
      ground (arith, clear_phone-encrypted_phone S dto.phone u.phone x.6)

-- The user service over CryptoService, with its key and what `randomBytes` draws.
abbrev pub with_cipher :
    {Us Buffer : Type 0} → Services Us → NodeCrypto Buffer → Buffer → Result Buffer → Services Us
with_cipher S N key random = record S { crypto = cipher N key random }

-- Over the repository's own cipher, an account that was created is found again exactly as the
-- creation answered it, the phone number in clear, if the lookup answers.
pub create-find_one :
    {Us Buffer : Type 0} (S : Services Us) (N : NodeCrypto Buffer) (key : Buffer)
    (random : Result Buffer) (w w' : World Us) (dto : CreateUserDto) (r : User) (o : Option User)
    → create (with_cipher S N key random) dto w ≡ (ok r, w')
    → (S.users).find_by_id w'.users r.id ≡ ok o
    → find_one (with_cipher S N key random) r.id w' ≡ (ok r, w')
create-find_one S N key random w w' dto r o e found =
    shown_again (with_cipher S N key random) w w' dto r o e found
