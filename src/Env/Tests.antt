-- ===== src/Env/Tests.antt =====
-- The sample environment, validated and read.
use backend_boilerplate.Base.{error, none, ok, refl, some, throw, ◌≡◌}
use backend_boilerplate.Crypto.{constructed, utf16_length}
use backend_boilerplate.Streaming.Numbers.{parse_natural}
use backend_boilerplate.Env.Sample.{zod, environment, validated}
use backend_boilerplate.Env.{
  text, parse_field, validate_env, setting, shutdown_config, retry_strategy,
}
use backend_boilerplate.Auth.Expiry.{expires_at, expires_match}
use backend_boilerplate.Env.Settings.{
  jwt_settings, redis_settings, throttler_settings, bull_settings, database_url,
}

run : Unit {0}
unfolding validate_env parse_natural setting parse_field shutdown_config retry_strategy constructed
    utf16_length
run = tt

env_tests :
    (validate_env zod environment ≡ ok validated)
    × (validate_env zod (λ k. none) ≡ throw (error "Invalid environment variables"))
    × ((shutdown_config environment).shutdown_timeout ≡ some 1)
    × (retry_strategy 3 ≡ 150)
    × (retry_strategy 100 ≡ 2000)
unfolding run
env_tests = (refl, refl, refl, refl, refl)

run_settings : Unit {0}
unfolding run jwt_settings redis_settings throttler_settings bull_settings database_url expires_at
    expires_match
run_settings = tt

settings_tests :
    (expires_at (jwt_settings environment).refresh.expires_in 5 ≡ ok 604800005)
    × ((redis_settings environment).port ≡ some 6379)
    × ((throttler_settings environment).ttl ≡ some 60000)
    × ((throttler_settings environment).limit ≡ some 10)
    × ((bull_settings validated).host ≡ some (text "localhost"))
    × (database_url environment ≡ some "postgresql://db")
unfolding run_settings
settings_tests = (refl, refl, refl, refl, refl, refl)
