-- ===== src/Env/Settings.antt =====
-- src/config: jwt.config.ts, redis.config.ts, database.config.ts and bull.config.ts, and the throttler's
-- settings in src/core/core.module.ts. Each reads `process.env` itself; none is `undefined`, and of a
-- number NaN.
use backend_boilerplate.Base.{
  List, Option, String, arith, error, false, if◌then◌else◌, none, ok, refl, some, throw, true,
  truthy, truthy?, ℕ, ◌*◌, ◌+◌, ◌≡◌, ◌≤◌,
}
use backend_boilerplate.Crypto.{utf16_length}
use backend_boilerplate.Streaming.Numbers.{parse_natural}
use backend_boilerplate.Auth.Types.{ExpiresIn}
use backend_boilerplate.Auth.Expiry.{expires_at, expires_match, codes, max_date}
use backend_boilerplate.Env.{
  Environment, Zod, Value, env_or, validate_env, retry_strategy, setting, env_schema, min_string,
  parse_field,
}
use backend_boilerplate.Env.Validated.{validate_env-setting}

pub record Signing : Type 0 where
  pub secret : Option String
  pub expires_in : ExpiresIn

pub record JwtSettings : Type 0 where
  pub access : Signing
  pub refresh : Signing

unfoldable pub jwt_settings : Environment → JwtSettings
jwt_settings env = record {
  access = record {
    secret = env "JWT_ACCESS_SECRET";
    expires_in = ExpiresIn.text (env_or "15m" (env "JWT_ACCESS_EXPIRATION"));
  };
  refresh = record {
    secret = env "JWT_REFRESH_SECRET";
    expires_in = ExpiresIn.text (env_or "7d" (env "JWT_REFRESH_EXPIRATION"));
  };
}

pub record RedisSettings : Type 0 where
  pub host : String
  pub port : Option ℕ
  pub password : Option String
  pub db : Option ℕ
  pub retry_strategy : ℕ → ℕ
  pub max_retries_per_request : ℕ

-- `v || undefined`
abbrev if_given : Option String → Option String
if_given none = none
if_given (some s) = if truthy s then some s else none

unfoldable pub redis_settings : Environment → RedisSettings
redis_settings env = record {
  host = env_or "localhost" (env "REDIS_HOST");
  port = parse_natural (env_or "6379" (env "REDIS_PORT"));
  password = if_given (env "REDIS_PASSWORD");
  db = parse_natural (env_or "0" (env "REDIS_DB"));
  retry_strategy = retry_strategy;
  max_retries_per_request = 3;
}

unfoldable pub database_url : Environment → Option String
database_url env = env "DATABASE_URL"

pub record Throttler : Type 0 where
  pub ttl : Option ℕ
  pub limit : Option ℕ

abbrev in_milliseconds : Option ℕ → Option ℕ
in_milliseconds none = none
in_milliseconds (some n) = some (n * 1000)

unfoldable pub throttler_settings : Environment → Throttler
throttler_settings env = record {
  ttl = in_milliseconds (parse_natural (env_or "60" (env "THROTTLE_TTL")));
  limit = parse_natural (env_or "10" (env "THROTTLE_LIMIT"));
}

pub record BullSettings (Num : Type 0) : Type 0 where
  pub host : Option (Value Num)
  pub port : Option (Value Num)
  pub password : Option (Value Num)
  pub db : Option (Value Num)
  pub attempts : ℕ
  pub backoff_delay : ℕ
  pub remove_on_complete : ℕ
  pub remove_on_fail : ℕ

-- Over the validated configuration. The back-off is exponential, from the first delay.
unfoldable pub bull_settings : {Num : Type 0} → List (String × Value Num) → BullSettings Num
bull_settings config = record {
  host = setting config "REDIS_HOST";
  port = setting config "REDIS_PORT";
  password = setting config "REDIS_PASSWORD";
  db = setting config "REDIS_DB";
  attempts = 3;
  backoff_delay = 1000;
  remove_on_complete = 100;
  remove_on_fail = 50;
}

never_saved :
    (t : String) (now : ℕ) {u : String}
    → expires_match (codes t) ≡ none
    → u ≡ t
    → expires_at (ExpiresIn.text u) now ≡ throw (error "Invalid refresh token expiration format")
unfolding expires_at
never_saved t now bad same = rw (same, bad) refl

module _ {Num : Type 0} (Z : Zod Num) where
  long_enough :
      (o : Option String) (v : Value Num)
      → parse_field Z (min_string 32) o ≡ some v
      → (s : String) × ((o ≡ some s) × (32 ≤ utf16_length s))
  unfolding parse_field
  long_enough none v e = absurd (ground arith)
  long_enough (some s) v e = (s, (refl, ground (arith, Z.min_length_lem 32 s)))

  secret_of :
      (env : Environment) (c : List (String × Value Num)) (k : String)
      → validate_env Z env ≡ ok c
      → setting env_schema k ≡ some (min_string 32)
      → (s : String) × ((env k ≡ some s) × (32 ≤ utf16_length s))
  secret_of env c k valid listed =
      let (v, held, parsed) = validate_env-setting Z env c k (min_string 32) valid listed in
      long_enough (env k) v parsed

  default_of : (d : String) (o : Option String) → truthy? o ≡ false → env_or d o ≡ d
  default_of d none unset = refl
  default_of d (some s) unset = rw unset refl

  week :
      (now : ℕ)
      → now + 604800000 ≤ max_date
      → expires_at (ExpiresIn.text "7d") now ≡ ok (now + 604800000)
  unfolding expires_at expires_match
  week now soon = ground arith

  -- An environment that passes the validation gives both kinds of token a secret of at least 32 units;
  -- and if it leaves the refresh expiration out, or empty, a refresh token is kept for seven days, as
  -- long as a date can hold their end.
  pub jwt_settings-validate_env :
      (env : Environment) (c : List (String × Value Num)) (now : ℕ)
      → validate_env Z env ≡ ok c
      → truthy? (env "JWT_REFRESH_EXPIRATION") ≡ false
      → now + 604800000 ≤ max_date
      → ((s : String) × (((jwt_settings env).access.secret ≡ some s) × (32 ≤ utf16_length s)))
        × ((s : String) × (((jwt_settings env).refresh.secret ≡ some s) × (32 ≤ utf16_length s)))
        × (expires_at (jwt_settings env).refresh.expires_in now ≡ ok (now + 604800000))
  unfolding jwt_settings setting
  jwt_settings-validate_env env c now valid unset soon = (
    secret_of env c "JWT_ACCESS_SECRET" valid refl,
    secret_of env c "JWT_REFRESH_SECRET" valid refl,
    rw (default_of "7d" (env "JWT_REFRESH_EXPIRATION") unset) (week now soon),
  )

-- With a refresh expiration that is a text but not digits and a unit, which the schema accepts, no
-- refresh token can be saved at any time.
pub jwt_settings-unusable :
    (env : Environment) (t : String) (now : ℕ)
    → env "JWT_REFRESH_EXPIRATION" ≡ some t
    → truthy t ≡ true
    → expires_match (codes t) ≡ none
    → expires_at (jwt_settings env).refresh.expires_in now
      ≡ throw (error "Invalid refresh token expiration format")
unfolding jwt_settings
jwt_settings-unusable env t now set_to given bad = never_saved t now bad (rw (set_to, given) refl)
