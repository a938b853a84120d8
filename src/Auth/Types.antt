-- ===== src/Auth/Types.antt =====
-- src/domains/auth: JwtPayload and AuthJwtConfig, the rows of `refresh_tokens`, the state of a
-- request, and `@nestjs/jwt` as an interface.
use backend_boilerplate.Base.{ℕ, List, String, Result}
use backend_boilerplate.Users.{Role, User}
use backend_boilerplate.Events.{Event}

pub record JwtPayload : Type 0 where
  pub sub : String
  pub email : String
  pub role : Role

-- `JwtSignOptions['expiresIn']`
pub data ExpiresIn : Type 0 where
  text : String → ExpiresIn
  number : ℕ → ExpiresIn
  missing : ExpiresIn

pub record SigningConfig : Type 0 where
  pub secret : String
  pub expires_in : ExpiresIn

pub record AuthJwtConfig : Type 0 where
  pub access : SigningConfig
  pub refresh : SigningConfig

pub record RefreshToken : Type 0 where
  pub token : String
  pub user_id : String
  pub expires_at : ℕ

pub record LoginDto : Type 0 where
  pub email : String
  pub password : String

-- `UserResponseDto` takes every column of the user, and the phone in clear.
pub record AuthResponseDto : Type 0 where
  pub user : User
  pub access_token : String
  pub refresh_token : String

-- The two tables, the events so far and the time in milliseconds, which stands still in a request.
pub record World (Us Tk : Type 0) : Type 0 where
  pub users : Us
  pub tokens : Tk
  pub events : List Event
  pub now : ℕ

-- `JwtService`: signing with HS256 depends on the payload, the options and the second of issue
-- alone; a token is verified with a secret at a time, and may be refused.
pub record Jwt : Type 0 where
  pub sign : JwtPayload → String → ExpiresIn → (second : ℕ) → Result String
  pub verify : (token secret : String) (second : ℕ) → Result JwtPayload
