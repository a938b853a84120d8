-- ===== src/Schedule/Tests.antt =====
-- The lock and the tasks at small stores.
use backend_boilerplate.Base.{List, String, [], false, none, ok, refl, some, ℕ, ◌∷◌, ◌≡◌}
use backend_boilerplate.Store.Assoc.{at, assoc_table, assoc_cache, assoc_steps}
use backend_boilerplate.Auth.Types.{RefreshToken}
use backend_boilerplate.Idempotency.{IdempotencyKey}
use backend_boilerplate.Schedule.{
  World, AuditLog, with_distributed_lock, cleanup_expired_tokens, expired_token,
}
use backend_boilerplate.Schedule.Cluster.{idle, Cluster}
use backend_boilerplate.Schedule.Cleanup.{Swept, cleanup_expired_tokens-Swept}
use backend_boilerplate.Base.{throw, error}
use backend_boilerplate.Schedule.Health.{check_system_health, log_system_stats}

abbrev Here : Type 0
Here =
    World (List (String × ℕ)) (List (String × RefreshToken)) (List (String × AuditLog))
      (List (String × IdempotencyKey))

abbrev token : String → ℕ → String × RefreshToken
token t e = (t, record { token = t; user_id = "u1"; expires_at = e })

abbrev world : List (String × ℕ) → List (String × RefreshToken) → Here
world locks tokens = record { cache = locks; tokens = tokens; logs = []; keys = []; now = 50 }

run : Unit {0}
unfolding with_distributed_lock cleanup_expired_tokens assoc_steps
run = tt

schedule_tests :
    (cleanup_expired_tokens assoc_cache assoc_table (world [] (token "a" 40 ∷ token "b" 60 ∷ []))
      ≡ (ok (some tt), world [] (token "b" 60 ∷ [])))
    × (cleanup_expired_tokens assoc_cache assoc_table
          (world (("lock:cleanup-expired-tokens", 49) ∷ []) (token "a" 40 ∷ []))
        ≡ (ok none, world [] (token "a" 40 ∷ [])))
unfolding run
schedule_tests = (refl, refl)

abbrev held_lock : Here
held_lock = world (("lock:job", 49) ∷ []) []

abbrev quiet : Cluster
quiet = record { lock = false; phase = λ i. idle }

abbrev two_tokens : Here
two_tokens = world [] (token "a" 40 ∷ token "b" 60 ∷ [])

cleanup_expired_tokens-Swept_example :
    Swept
      (expired_token 50)
      (at (token "a" 40 ∷ token "b" 60 ∷ []))
      (at ((cleanup_expired_tokens assoc_cache assoc_table two_tokens).1).tokens)
    × (((cleanup_expired_tokens assoc_cache assoc_table two_tokens).1).logs ≡ [])
    × (((cleanup_expired_tokens assoc_cache assoc_table two_tokens).1).keys ≡ [])
cleanup_expired_tokens-Swept_example =
    cleanup_expired_tokens-Swept assoc_cache assoc_table two_tokens

-- The query is answered, or it fails.
health_tests :
    (check_system_health assoc_cache (ok tt) (world [] [])
      ≡ (ok (some tt), world (("health-check", 50) ∷ []) []))
    × (check_system_health assoc_cache (throw (error "down")) (world [] [])
        ≡ (ok (some tt), world [] []))
    × (log_system_stats assoc_cache (ok 2) (ok 1) (ok 0) (world [] [])
        ≡ (ok (some tt), world [] []))
unfolding run check_system_health log_system_stats
health_tests = (refl, refl, refl)
