-- ===== src/Env/Sample.antt =====
-- An environment with the four settings that have no default. A number is its digits' value.
use backend_boilerplate.Base.{
  Bool, List, Option, String, [], false, if◌then◌else◌, leb, nat_eq, none, ok, refl, some, true,
  truthy, ℕ, ◌==◌, ◌||◌, ◌∷◌, ◌≡◌,
}
use backend_boilerplate.Crypto.{utf16_length}
use backend_boilerplate.Crypto.Sample.{letters}
use backend_boilerplate.Streaming.Numbers.{parse_natural}
use backend_boilerplate.Env.{Zod, Value, text, num, Environment, validate_env, setting, parse_field}

abbrev pub above : Option ℕ → Bool
above none = false
above (some n) = leb 1 n

abbrev pub some_number : Option ℕ → Bool
some_number none = false
some_number (some n) = true

abbrev pub zod : Zod (Option ℕ)
zod = record {
  number = parse_natural;
  positive = above;
  nonnegative = some_number;
  url = λ s. truthy s;
  min_length = λ n s. leb n (utf16_length s);
  exact_length = λ n s. nat_eq (utf16_length s) n;
  min_length_lem = λ n s. refl;
  exact_length_lem = λ n s. refl;
}

abbrev pub environment : Environment
environment k =
    if k == "DATABASE_URL"
    then some "postgresql://db"
    else if k == "ENCRYPTION_KEY" || (k == "JWT_ACCESS_SECRET" || k == "JWT_REFRESH_SECRET")
    then some letters
    else if k == "SHUTDOWN_TIMEOUT"
    then some "1e4"
    else none

abbrev pub validated : List (String × Value (Option ℕ))
validated =
    ("NODE_ENV", text "development")
    ∷ ("PORT", num (some 3000))
    ∷ ("DATABASE_URL", text "postgresql://db")
    ∷ ("REDIS_HOST", text "localhost")
    ∷ ("REDIS_PORT", num (some 6379))
    ∷ ("REDIS_PASSWORD", Value.undefined)
    ∷ ("REDIS_DB", num (some 0))
    ∷ ("JWT_ACCESS_SECRET", text letters)
    ∷ ("JWT_ACCESS_EXPIRATION", text "15m")
    ∷ ("JWT_REFRESH_SECRET", text letters)
    ∷ ("JWT_REFRESH_EXPIRATION", text "7d")
    ∷ ("ENCRYPTION_KEY", text letters)
    ∷ ("THROTTLE_TTL", num (some 60))
    ∷ ("THROTTLE_LIMIT", num (some 10))
    ∷ ("CORS_ORIGIN", text "http://localhost:3000")
    ∷ ("UPLOAD_MAX_FILE_SIZE", num (some 10485760))
    ∷ ("UPLOAD_DEST", text "./uploads")
    ∷ ("LOG_LEVEL", text "info")
    ∷ ("BULL_BOARD_PATH", text "/admin/queues")
    ∷ ("SHUTDOWN_TIMEOUT", num (some 1))
    ∷ ("QUEUE_DRAIN_TIMEOUT", num (some 20000))
    ∷ ("WEBSOCKET_CLOSE_TIMEOUT", num (some 5000))
    ∷ []

-- For a test: the names that the validation computes with.
unfoldable pub validated_steps : Unit {0}
unfolding validate_env parse_natural setting parse_field utf16_length
validated_steps = tt

pub environment-validated : validate_env zod environment ≡ ok validated
unfolding validated_steps
environment-validated = refl
