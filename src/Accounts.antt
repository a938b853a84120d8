-- ===== src/Accounts.antt =====
-- The user service and the auth service on one table: an account's first login.
mod Tests
use backend_boilerplate.Base.{
  Bool, String, [], any, arith, if◌then◌else◌, ok, some, true, ◌*◌, ◌++◌, ◌∷◌, ◌≡◌,
}
use backend_boilerplate.Users.{User}
use backend_boilerplate.Events.{user_login}
use backend_boilerplate.Pagination.{Listing}
use backend_boilerplate.User.{CreateUserDto, UserWhere, SortOrder, create}
use backend_boilerplate.User as U
use backend_boilerplate.User.Account.{create-Created}
use backend_boilerplate.Auth.Types.{LoginDto, World}
use backend_boilerplate.Auth.{Services, login}
use backend_boilerplate.Auth.Success.{Issued, answer_of, login_succeeds}

-- The user service beside an auth service: they share the table, the hash and the cipher.
abbrev pub beside :
    {Us Tk : Type 0}
    → Services Us Tk
    → Listing Us UserWhere (String × SortOrder) User
    → U.Services Us
beside S listing = record {
  users = S.users;
  listing = listing;
  argon2 = S.argon2;
  crypto = S.crypto;
}

-- Once an account was created, a login with its address and password, at any time before the table
-- of users changes, returns and signs in the new user, if the hash is verified without exception and
-- the services issue the tokens.
pub login-create :
    {Us Tk : Type 0} (S : Services Us Tk) (listing : Listing Us UserWhere (String × SortOrder) User)
    (w w' : U.World Us) (dto : CreateUserDto) (r u : User) (v : World Us Tk) (b : Bool)
    (i : Issued S v u v.tokens)
    → create (beside S listing) dto w ≡ (ok r, w')
    → v.users ≡ w'.users
    → (S.users).find_by_email v.users dto.email ≡ ok (some u)
    → (S.argon2).verify u.password dto.password ≡ ok b
    → (u.id ≡ r.id)
      × (login S (record { email = dto.email; password = dto.password }) v ≡ (
        ok (answer_of S i),
        record v { tokens = i.after; events = v.events ++ user_login u.id u.email ∷ [] },
      ))
login-create S listing w w' dto r u v b i e same found verified =
    let (u0, x) = create-Created (beside S listing) w w' dto r e in
    let row : u ≡ u0 = ground (arith, (S.users).find_by_email_lem v.users dto.email) in
    let right : b ≡ true = ground (arith, (S.argon2).hash_verify dto.password) in
    (
      ground arith,
      login_succeeds S v (record { email = dto.email; password = dto.password }) u i found
          (ground arith) (ground arith),
    )
