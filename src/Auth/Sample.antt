-- ===== src/Auth/Sample.antt =====
-- The authentication service over a list of users, with texts for tokens.
use Prim.Native.String.{◌++◌ as str_append}
use backend_boilerplate.Base.{List, String, none, ok, some, true, ℕ}
use backend_boilerplate.Store.Assoc.{assoc_table}
use backend_boilerplate.Users.{User, Role}
use backend_boilerplate.Users.Sample.{sample_users, clear_argon2, clear_cipher}
use backend_boilerplate.Auth.Types.{JwtPayload, ExpiresIn, AuthJwtConfig, RefreshToken, Jwt}
use backend_boilerplate.Auth.{Services}

abbrev pub ann_payload : JwtPayload
ann_payload = record { sub = "u1"; email = "a@x.org"; role = Role.user }

-- A token is its secret and the second of issue, and every token verifies.
unfoldable pub stamp : ℕ → String
stamp ℕ.zero = "0"
stamp (ℕ.suc n) = str_append "1" (stamp n)

abbrev pub text_jwt : Jwt
text_jwt = record {
  sign = λ p secret e second. ok (str_append secret (stamp second));
  verify = λ token secret second. ok ann_payload;
}

abbrev pub jwt_config : AuthJwtConfig
jwt_config = record {
  access = record { secret = "a"; expires_in = ExpiresIn.text "15m" };
  refresh = record { secret = "r"; expires_in = ExpiresIn.text "7d" };
}

abbrev pub services : Services (List User) (List (String × RefreshToken))
services = record {
  users = sample_users;
  tokens = assoc_table;
  argon2 = clear_argon2;
  jwt = text_jwt;
  crypto = clear_cipher;
  config = some jwt_config;
}

abbrev pub ann : User
ann = record {
  id = "u1";
  email = "a@x.org";
  password = "secret";
  first_name = some "Ann";
  last_name = none;
  phone = some "555";
  role = Role.user;
  is_active = true;
  created_at = 0;
  updated_at = 0;
}
