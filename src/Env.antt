-- ===== src/Env.antt =====
-- src/config/env.validation.ts and the settings of jwt.config.ts, redis.config.ts and
-- shutdown.config.ts. zod's checks and JavaScript's `Number` are parameters.
pub mod Validated
pub mod Settings
pub mod Sample
mod Tests
use backend_boilerplate.Base.{
  Bool, List, Option, Result, String, [], error, if◌then◌else◌, includes, leb, nat_eq, none, ok,
  reads, some, throw, truthy, ℕ, ◌*◌, ◌==◌, ◌||◌, ◌∷◌, ◌≡◌,
}
use backend_boilerplate.Crypto.{utf16_length}
use backend_boilerplate.Streaming.Numbers.{parse_natural}

-- `Num` holds JavaScript's numbers.
pub record Zod (Num : Type 0) : Type 0 where
  pub number : String → Num
  -- `z.number().positive()` and `z.number().min(0)`
  pub positive : Num → Bool
  pub nonnegative : Num → Bool
  pub url : String → Bool
  pub min_length : ℕ → String → Bool
  pub exact_length : ℕ → String → Bool
  pub min_length_lem : (n : ℕ) (s : String) → min_length n s ≡ leb n (utf16_length s)
  pub exact_length_lem : (n : ℕ) (s : String) → exact_length n s ≡ nat_eq (utf16_length s) n

-- What stands for a key in `envSchema`; a text first is the default.
pub data Schema : Type 0 where
  one_of : List String → String → Schema
  positive_number nonnegative_number string_or : String → Schema
  optional_string url_string : Schema
  min_string exact_string : ℕ → Schema

pub data Value (Num : Type 0) : Type 0 where
  undefined : Value Num
  text : String → Value Num
  num : Num → Value Num

abbrev pub env_schema : List (String × Schema)
env_schema =
    ("NODE_ENV", one_of ("development" ∷ "production" ∷ "test" ∷ "staging" ∷ []) "development")
    ∷ ("PORT", positive_number "3000")
    ∷ ("DATABASE_URL", url_string)
    ∷ ("REDIS_HOST", string_or "localhost")
    ∷ ("REDIS_PORT", positive_number "6379")
    ∷ ("REDIS_PASSWORD", optional_string)
    ∷ ("REDIS_DB", nonnegative_number "0")
    ∷ ("JWT_ACCESS_SECRET", min_string 32)
    ∷ ("JWT_ACCESS_EXPIRATION", string_or "15m")
    ∷ ("JWT_REFRESH_SECRET", min_string 32)
    ∷ ("JWT_REFRESH_EXPIRATION", string_or "7d")
    ∷ ("ENCRYPTION_KEY", exact_string 32)
    ∷ ("THROTTLE_TTL", positive_number "60")
    ∷ ("THROTTLE_LIMIT", positive_number "10")
    ∷ ("CORS_ORIGIN", string_or "http://localhost:3000")
    ∷ ("UPLOAD_MAX_FILE_SIZE", positive_number "10485760")
    ∷ ("UPLOAD_DEST", string_or "./uploads")
    ∷ ("LOG_LEVEL", one_of ("fatal" ∷ "error" ∷ "warn" ∷ "info" ∷ "debug" ∷ "trace" ∷ []) "info")
    ∷ ("BULL_BOARD_PATH", string_or "/admin/queues")
    ∷ ("SHUTDOWN_TIMEOUT", positive_number "30000")
    ∷ ("QUEUE_DRAIN_TIMEOUT", positive_number "20000")
    ∷ ("WEBSOCKET_CLOSE_TIMEOUT", positive_number "5000")
    ∷ []

abbrev pub or_text : String → Option String → String
or_text d none = d
or_text d (some s) = s

-- An environment: the text of a variable that is set.
abbrev pub Environment : Type 0
Environment = String → Option String

module _ {Num : Type 0} (Z : Zod Num) where
  abbrev passing : {A : Type 0} → (A → Bool) → A → Option A
  passing p a = if p a then some a else none

  abbrev as_text : Option String → Option (Value Num)
  as_text none = none
  as_text (some s) = some (text s)

  abbrev as_num : Option Num → Option (Value Num)
  as_num none = none
  as_num (some n) = some (num n)

  abbrev required : (String → Bool) → Option String → Option (Value Num)
  required p none = none
  required p (some s) = as_text (passing p s)

  abbrev optional : Option String → Option (Value Num)
  optional none = some undefined
  optional (some s) = some (text s)

  -- A key's value, or none for an issue.
  unfoldable pub parse_field : Schema → Option String → Option (Value Num)
  parse_field (one_of values d) o = as_text (passing (includes values) (or_text d o))
  parse_field (positive_number d) o = as_num (passing Z.positive (Z.number (or_text d o)))
  parse_field (nonnegative_number d) o = as_num (passing Z.nonnegative (Z.number (or_text d o)))
  parse_field (string_or d) o = some (text (or_text d o))
  parse_field optional_string o = optional o
  parse_field url_string o = required Z.url o
  parse_field (min_string n) o = required (Z.min_length n) o
  parse_field (exact_string n) o = required (Z.exact_length n) o

  abbrev with_field :
      String
      → Option (Value Num)
      → Option (List (String × Value Num))
      → Option (List (String × Value Num))
  with_field k (some v) (some vs) = some ((k, v) ∷ vs)
  with_field k _ _ = none

  -- Every key is parsed; one issue fails the whole.
  pub safe_parse : List (String × Schema) → Environment → Option (List (String × Value Num))
  unfolding parse_field
  safe_parse [] env = some []
  safe_parse ((k, s) ∷ fields) env = with_field k (parse_field s (env k)) (safe_parse fields env)

  abbrev pub parsed : Option (List (String × Value Num)) → Result (List (String × Value Num))
  parsed (some c) = ok c
  parsed none = throw (error "Invalid environment variables")

  pub validate_env : Environment → Result (List (String × Value Num))
  unfolding safe_parse
  validate_env env = parsed (safe_parse env_schema env)

-- `config.get(key)`
unfoldable pub setting {ℓ} : {V : Type ℓ} → List (String × V) → String → Option V
setting [] k = none
setting ((j, v) ∷ rest) k = if j == k then some v else setting rest k

-- `process.env[key] || d`
abbrev pub env_or : String → Option String → String
env_or d none = d
env_or d (some s) = if truthy s then s else d

-- shutdown.config.ts, which reads the environment itself; none is NaN.
pub record ShutdownConfig : Type 0 where
  pub shutdown_timeout : Option ℕ
  pub queue_drain_timeout : Option ℕ
  pub websocket_close_timeout : Option ℕ

pub shutdown_config : Environment → ShutdownConfig
unfolding parse_natural
shutdown_config env = record {
  shutdown_timeout = parse_natural (env_or "30000" (env "SHUTDOWN_TIMEOUT"));
  queue_drain_timeout = parse_natural (env_or "20000" (env "QUEUE_DRAIN_TIMEOUT"));
  websocket_close_timeout = parse_natural (env_or "5000" (env "WEBSOCKET_CLOSE_TIMEOUT"));
}

-- redis.config.ts: the wait before a reconnection, by its number.
pub retry_strategy : ℕ → ℕ
retry_strategy times = if leb (times * 50) 2000 then times * 50 else 2000
