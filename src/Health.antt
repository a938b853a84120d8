-- ===== src/Health.antt =====
-- src/infra/health: presentation/health.controller.ts over the indicators of Terminus, which are
-- parameters. `ready` of the controller is in Shutdown.
mod Tests
use backend_boilerplate.Base.{
  arith, All, Bool, List, Result, String, [], false, if◌then◌else◌, not, ok, true, ℕ, ◌*◌, ◌↔◌, ◌∷◌,
  ◌≡◌,
}
use backend_boilerplate.Shutdown.{ShutdownService, ready}

-- What is asked of an indicator: the database's ping, bytes of memory, or the part of the disk in use,
-- in tenths.
pub data Indicator : Type 0 where
  database : Indicator
  memory_heap memory_rss : (bytes : ℕ) → Indicator
  storage : (path : String) → (tenths_used : ℕ) → Indicator

-- `HealthCheckService.check` throws unless every indicator is up.
pub record Terminus : Type 0 where
  pub up : Indicator → Bool
  pub check : List Indicator → Result (Unit {0})
  pub check_lem : (is : List Indicator) → (check is ≡ ok tt) ↔ All (λ i. up i ≡ true) is

-- `live` is the time, in milliseconds.
pub record Live : Type 0 where
  pub status : String
  pub timestamp : ℕ

pub live : ℕ → Live
live now = record { status = "ok"; timestamp = now }

module _ (T : Terminus) where
  unfoldable pub readiness : ShutdownService → Result (Unit {0})
  unfolding ready
  readiness s = ready s (T.check (database ∷ []))

  unfoldable pub check : (disk_check_path : String) → Result (Unit {0})
  check disk_check_path = T.check (
      database
      ∷ memory_heap (150 * 1024 * 1024)
      ∷ memory_rss (300 * 1024 * 1024)
      ∷ storage disk_check_path 9
      ∷ [])

  ready_iff :
      (s : ShutdownService) (path : String)
      → check path ≡ ok tt
      → (readiness s ≡ ok tt) ↔ (s.is_shutting_down ≡ false)
  unfolding readiness check
  ready_iff s path healthy =
      let all_up =
        (T.check_lem (
            database
            ∷ memory_heap (150 * 1024 * 1024)
            ∷ memory_rss (300 * 1024 * 1024)
            ∷ storage path 9
            ∷ [])).0
          healthy in
      let pinged : T.check (database ∷ []) ≡ ok tt =
        (T.check_lem (database ∷ [])).1 (all_up.0, tt) in
      ground (arith, pinged)

  -- A server that answers the health check as healthy is ready exactly if it is not shutting down,
  -- and a server that is ready has its database up. One that is shutting down may be healthy all the same.
  pub readiness-check :
      (s : ShutdownService) (path : String)
      → (check path ≡ ok tt → (readiness s ≡ ok tt) ↔ (s.is_shutting_down ≡ false))
        × (readiness s ≡ ok tt → (T.up database ≡ true) × (s.is_shutting_down ≡ false))
  unfolding readiness check
  readiness-check s path = (
    (λ healthy. ready_iff s path healthy),
    (λ is_ready. ground (arith, T.check_lem (database ∷ []))),
  )
