-- ===== src/Schedule.antt =====
-- src/infra/schedule: distributed-cron.decorator.ts, and cleanup.task.ts, whose methods it wraps.
mod Lock
mod Cluster
mod Cleanup
mod Health
mod Tests
use Prim.Native.String.{◌++◌ as str_append}
use backend_boilerplate.Base.{
  ◌-◌, ltb, try_catch, Bool, Exec, Option, Result, String, false, if◌then◌else◌, nat_eq, none, not,
  ok, pure, reads, some, throw, writes, ℕ, ◌*◌, ◌>>=◌, ◌>>◌,
}
use backend_boilerplate.Store.{Table, Cache}
use backend_boilerplate.Auth.Types.{RefreshToken}
use backend_boilerplate.Idempotency.{IdempotencyKey}

-- `audit_logs` by id, of which the tasks read the time of creation.
pub record AuditLog : Type 0 where
  pub id : String
  pub created_at : ℕ

pub record World (Ca Tk Lg Ke : Type 0) : Type 0 where
  pub cache : Ca
  pub tokens : Tk
  pub logs : Lg
  pub keys : Ke
  pub now : ℕ

-- `finally`: its exception, if it throws, replaces the outcome.
abbrev conclude : {S A : Type 0} → Result A → Result (Unit {0}) × S → Result A × S
conclude r (ok _, s) = (r, s)
conclude r (throw e, s) = (throw e, s)

abbrev pub try_finally : {S A : Type 0} → Exec S A → Exec S (Unit {0}) → Exec S A
try_finally m f s = conclude (m s).0 (f (m s).1)

abbrev pub lock_value : String → String
lock_value lock_key = str_append "lock:" lock_key

-- `if (existingLock)`: the value is the time at which it was taken.
abbrev pub taken : Option ℕ → Bool
taken none = false
taken (some t) = not (nat_eq t 0)

module _ {Ca Tk Lg Ke : Type 0} (C : Cache Ca ℕ) where
  abbrev pub with_cache : World Ca Tk Lg Ke → Result Ca → Result (World Ca Tk Lg Ke)
  with_cache w (ok c) = ok (record w { cache = c })
  with_cache w (throw e) = throw e

  abbrev pub release : String → Exec (World Ca Tk Lg Ke) (Unit {0})
  release key = writes (λ w. with_cache w (C.del w.cache key))

  abbrev pub acquire : String → ℕ → Exec (World Ca Tk Lg Ke) (Unit {0})
  acquire key ttl = writes (λ w. with_cache w (C.set w.cache key w.now ttl))

  pub guarded :
      {A : Type 0}
      → String
      → ℕ
      → Exec (World Ca Tk Lg Ke) A
      → Option ℕ
      → Exec (World Ca Tk Lg Ke) (Option A)
  guarded key ttl method existing =
      if taken existing
      then pure none
      else (do acquire key ttl; result ← method; pure (some result))

  -- `none` if the method was skipped. The `catch` logs and throws again.
  pub with_distributed_lock :
      {A : Type 0} → String → ℕ → Exec (World Ca Tk Lg Ke) A → Exec (World Ca Tk Lg Ke) (Option A)
  unfolding guarded
  with_distributed_lock lock_key ttl method =
      try_finally
        (do
          existing ← reads (λ w. C.get w.cache (lock_value lock_key))
          guarded (lock_value lock_key) ttl method existing)
        (release (lock_value lock_key))

abbrev pub expired_token : ℕ → RefreshToken → Bool
expired_token now row = ltb row.expires_at now

abbrev pub expired_key : ℕ → IdempotencyKey → Bool
expired_key now row = ltb row.expires_at now

-- `setDate(getDate() - 90)`; rows are dated from 1970 on.
abbrev pub ninety_days : ℕ
ninety_days = 90 * 86400000

abbrev pub old_log : ℕ → AuditLog → Bool
old_log now row = ltb row.created_at (now - ninety_days)

-- cleanup.task.ts: each task is under its own lock, and logs the exceptions of its statement.
module _ {Ca Tk Lg Ke : Type 0} (C : Cache Ca ℕ) where
  abbrev pub quietly : Exec (World Ca Tk Lg Ke) (Unit {0}) → Exec (World Ca Tk Lg Ke) (Unit {0})
  quietly m = try_catch m (λ _. pure tt)

  abbrev pub with_tokens : World Ca Tk Lg Ke → Result Tk → Result (World Ca Tk Lg Ke)
  with_tokens w (ok t) = ok (record w { tokens = t })
  with_tokens w (throw e) = throw e

  abbrev pub with_logs : World Ca Tk Lg Ke → Result Lg → Result (World Ca Tk Lg Ke)
  with_logs w (ok t) = ok (record w { logs = t })
  with_logs w (throw e) = throw e

  abbrev pub with_keys : World Ca Tk Lg Ke → Result Ke → Result (World Ca Tk Lg Ke)
  with_keys w (ok t) = ok (record w { keys = t })
  with_keys w (throw e) = throw e

  pub cleanup_expired_tokens : Table Tk RefreshToken → Exec (World Ca Tk Lg Ke) (Option (Unit {0}))
  cleanup_expired_tokens T =
      with_distributed_lock C "cleanup-expired-tokens" 300000
        (quietly (writes (λ w. with_tokens w (T.delete_many w.tokens (expired_token w.now)))))

  pub cleanup_old_audit_logs : Table Lg AuditLog → Exec (World Ca Tk Lg Ke) (Option (Unit {0}))
  cleanup_old_audit_logs T =
      with_distributed_lock C "cleanup-old-audit-logs" 600000
        (quietly (writes (λ w. with_logs w (T.delete_many w.logs (old_log w.now)))))

  pub cleanup_expired_idempotency_keys :
      Table Ke IdempotencyKey → Exec (World Ca Tk Lg Ke) (Option (Unit {0}))
  cleanup_expired_idempotency_keys T =
      with_distributed_lock C "cleanup-expired-idempotency-keys" 120000
        (quietly (writes (λ w. with_keys w (T.delete_many w.keys (expired_key w.now)))))
