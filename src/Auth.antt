-- ===== src/Auth.antt =====
-- src/domains/auth: auth.service.ts and auth.repository.ts, each method an action over the tables.
-- `Promise.all` of the two signatures is their sequence, since signing writes nothing.
pub mod Types
pub mod Expiry
mod Login
mod Refresh
mod Rotation
mod Race
pub mod Logout
pub mod Strategy
pub mod Success
pub mod Sample
mod Tests
use backend_boilerplate.Base.{
  ℕ, ◌+◌, ◌/◌, Bool, true, false, ◌&&◌, Option, none, some, List, [], ◌∷◌, ◌++◌, String, ◌==◌, ltb,
  truthy, if◌then◌else◌, Exception, http, error, Result, ok, throw, Exec, pure, raise, reads,
  writes, modify, try_catch, ◌>>=◌, ◌>>◌,
}
use backend_boilerplate.Store.{Table}
use backend_boilerplate.Users.{User, UserTable, Argon2, PhoneCipher}
use backend_boilerplate.Events.{Event, user_login, user_logout}
use Types.{JwtPayload, AuthJwtConfig, RefreshToken, LoginDto, AuthResponseDto, World, Jwt}
use Expiry.{expires_at}

abbrev pub unauthorized : String → Exception
unauthorized message = http 401 message

-- What the service is injected with.
pub record Services (Us Tk : Type 0) : Type 0 where
  pub users : UserTable Us
  pub tokens : Table Tk RefreshToken
  pub argon2 : Argon2
  pub jwt : Jwt
  pub crypto : PhoneCipher
  pub config : Option AuthJwtConfig

module _ {Us Tk : Type 0} where
  abbrev pub emit : Event → Exec (World Us Tk) (Unit {0})
  emit e = modify (λ w. record w { events = w.events ++ e ∷ [] })

  abbrev pub with_tokens : World Us Tk → Result Tk → Result (World Us Tk)
  with_tokens w (ok t) = ok (record w { tokens = t })
  with_tokens w (throw e) = throw e

-- Whose tokens, and of these which one, if one is given, `deleteMany` deletes.
abbrev pub logged_out : String → Option String → RefreshToken → Bool
logged_out user_id none row = row.user_id == user_id
logged_out user_id (some token) row =
    if truthy token then row.user_id == user_id && row.token == token else row.user_id == user_id

-- The second of issue, `iat`.
abbrev pub second : ℕ → ℕ
second now = now / 1000

abbrev pub payload_of : User → JwtPayload
payload_of user = record { sub = user.id; email = user.email; role = user.role }

abbrev decrypted : Result String → Result (Option String)
decrypted (ok p) = ok (some p)
decrypted (throw e) = throw e

module _ {Us Tk : Type 0} (S : Services Us Tk) where
  -- auth.repository.ts
  abbrev pub delete_refresh_token : String → Exec (World Us Tk) (Unit {0})
  delete_refresh_token token = writes (λ w. with_tokens w ((S.tokens).delete w.tokens token))

  abbrev pub create_refresh_token : String → String → ℕ → Exec (World Us Tk) (Unit {0})
  create_refresh_token user_id token expires = writes (λ w. with_tokens w (
      (S.tokens).create w.tokens token
        (record { token = token; user_id = user_id; expires_at = expires })))

  abbrev pub delete_refresh_tokens : String → Option String → Exec (World Us Tk) (Unit {0})
  delete_refresh_tokens user_id token =
      writes (λ w. with_tokens w ((S.tokens).delete_many w.tokens (logged_out user_id token)))

  abbrev pub find_user_by_id : String → Exec (World Us Tk) (Option User)
  find_user_by_id user_id = reads (λ w. (S.users).find_by_id w.users user_id)

  -- `include: { user: true }`: the foreign key promises the user.
  abbrev owned : RefreshToken → Option User → Exec (World Us Tk) (Option (RefreshToken × User))
  owned row none = raise (error "Inconsistent query result: Field user is required")
  owned row (some user) = pure (some (row, user))

  abbrev with_user : Option RefreshToken → Exec (World Us Tk) (Option (RefreshToken × User))
  with_user none = pure none
  with_user (some row) = do user ← find_user_by_id row.user_id; owned row user

  abbrev pub find_refresh_token_with_user :
      String → Exec (World Us Tk) (Option (RefreshToken × User))
  find_refresh_token_with_user token = do
    row ← reads (λ w. (S.tokens).find_unique w.tokens token)
    with_user row

  -- auth.service.ts
  abbrev configured : Option AuthJwtConfig → Result AuthJwtConfig
  configured none = throw (error "JWT configuration is missing")
  configured (some c) = ok c

  abbrev pub get_jwt_config : Exec (World Us Tk) AuthJwtConfig
  get_jwt_config = reads (λ _. configured S.config)

  unfoldable pub generate_tokens : User → Exec (World Us Tk) (String × String)
  generate_tokens user = do
    c ← get_jwt_config
    access ←
        reads (λ w.
          (S.jwt).sign (payload_of user) (c.access).secret (c.access).expires_in (second w.now))
    refresh ← reads (λ w.
        (S.jwt).sign (payload_of user) (c.refresh).secret (c.refresh).expires_in (second w.now))
    pure (access, refresh)

  unfoldable pub save_refresh_token : String → String → Exec (World Us Tk) (Unit {0})
  save_refresh_token user_id token = do
    c ← get_jwt_config
    expires ← reads (λ w. expires_at (c.refresh).expires_in w.now)
    create_refresh_token user_id token expires

  -- `user.phone ? this.crypto.decrypt(user.phone) : undefined`
  unfoldable pub clear_phone : Option String → Result (Option String)
  clear_phone none = ok none
  clear_phone (some phone) = if truthy phone then decrypted ((S.crypto).decrypt phone) else ok none

  pub respond : User → String → String → Exec (World Us Tk) AuthResponseDto
  respond user access refresh = do
    phone ← reads (λ _. clear_phone user.phone)
    pure (record {
      user = record user { phone = phone };
      access_token = access;
      refresh_token = refresh;
    })

  -- The rest of `login`, after each of its tests.
  login_verified : User → Bool → Exec (World Us Tk) AuthResponseDto
  login_verified user false = raise (unauthorized "Invalid credentials")
  login_verified user true = do
    tokens ← generate_tokens user
    save_refresh_token user.id tokens.1
    emit (user_login user.id user.email)
    respond user tokens.0 tokens.1

  login_found : LoginDto → Option User → Exec (World Us Tk) AuthResponseDto
  login_found dto none = raise (unauthorized "Invalid credentials")
  login_found dto (some user) =
      if user.is_active
      then (do
        valid ← reads (λ _. (S.argon2).verify user.password dto.password)
        login_verified user valid)
      else raise (unauthorized "User account is inactive")

  unfoldable pub login : LoginDto → Exec (World Us Tk) AuthResponseDto
  unfolding login_found login_verified
  login dto = do user ← reads (λ w. (S.users).find_by_email w.users dto.email); login_found dto user

  -- The rest of `refresh`, after the token's row is read.
  rotate : String → User → Exec (World Us Tk) AuthResponseDto
  rotate token user = do
    tokens ← generate_tokens user
    delete_refresh_token token
    save_refresh_token user.id tokens.1
    respond user tokens.0 tokens.1

  refresh_stored : String → ℕ → Option (RefreshToken × User) → Exec (World Us Tk) AuthResponseDto
  refresh_stored token now none = raise (unauthorized "Invalid or expired refresh token")
  refresh_stored token now (some (row, user)) =
      if ltb row.expires_at now
      then raise (unauthorized "Invalid or expired refresh token")
      else if user.is_active
      then rotate token user
      else raise (unauthorized "User account is inactive")

  refresh_body : String → Exec (World Us Tk) AuthResponseDto
  refresh_body token = do
    c ← get_jwt_config
    reads (λ w. (S.jwt).verify token (c.refresh).secret (second w.now))
    stored ← find_refresh_token_with_user token
    now ← reads (λ w. ok w.now)
    refresh_stored token now stored

  -- The `catch` has no binding: every exception becomes the same one.
  pub refresh : String → Exec (World Us Tk) AuthResponseDto
  unfolding refresh_body refresh_stored rotate
  refresh token =
      try_catch (refresh_body token) (λ _. raise (unauthorized "Invalid or expired refresh token"))

  logged : Option User → Exec (World Us Tk) (Unit {0})
  logged none = pure tt
  logged (some user) = emit (user_logout user.id user.email)

  unfoldable pub logout : String → Option String → Exec (World Us Tk) (Unit {0})
  unfolding logged
  logout user_id refresh_token = do
    delete_refresh_tokens user_id refresh_token
    user ← find_user_by_id user_id
    logged user

  active_only : Option User → Option User
  active_only none = none
  active_only (some user) = if user.is_active then some user else none

  unfoldable pub validate_user : String → Exec (World Us Tk) (Option User)
  unfolding active_only
  validate_user user_id = do user ← find_user_by_id user_id; pure (active_only user)
