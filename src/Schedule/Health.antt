-- ===== src/Schedule/Health.antt =====
-- src/infra/schedule/tasks/health-check.task.ts, under the lock. The answers of Prisma's raw query
-- and of its counts are parameters.
use backend_boilerplate.Base.{
  ok, throw, refl, inr, inl, Result-cases, Bool-cases, Exec, Option, Result, String, arith, false,
  pure, reads, writes, ℕ, ◌==◌, ◌>>◌, ◌≡◌,
}
use backend_boilerplate.Store.{Cache}
use backend_boilerplate.Schedule.{
  World, with_distributed_lock, guarded, acquire, release, taken, lock_value, quietly, with_cache,
}

module _ {Ca Tk Lg Ke : Type 0} (C : Cache Ca ℕ) where
  probe : Result (Unit {0}) → Exec (World Ca Tk Lg Ke) (Unit {0})
  probe query = do
    reads (λ _. query)
    writes (λ w. with_cache C w (C.set w.cache "health-check" w.now 60000))
    reads (λ w. C.get w.cache "health-check")
    pure tt

  unfoldable pub check_system_health :
      Result (Unit {0}) → Exec (World Ca Tk Lg Ke) (Option (Unit {0}))
  unfolding probe
  check_system_health query =
      with_distributed_lock C "system-health-check" 60000 (quietly C (probe query))

  counted : (users active tokens : Result ℕ) → Exec (World Ca Tk Lg Ke) (Unit {0})
  counted users active tokens = do
    reads (λ _. users)
    reads (λ _. active)
    reads (λ _. tokens)
    pure tt

  -- The numbers are logged.
  unfoldable pub log_system_stats :
      (users active tokens : Result ℕ) → Exec (World Ca Tk Lg Ke) (Option (Unit {0}))
  unfolding counted
  log_system_stats users active tokens =
      with_distributed_lock C "log-system-stats" 60000 (quietly C (counted users active tokens))

  -- Of the cache's entries, one that is not the lock.
  module _ (key j : String) (other : (key == j) ≡ false) where
    abbrev Kept : World Ca Tk Lg Ke → World Ca Tk Lg Ke → Type 0
    Kept w w' = C.held w'.cache j ≡ C.held w.cache j

    release-Kept : (w : World Ca Tk Lg Ke) → Kept w (release C key w).1
    release-Kept w = elim (Result-cases (C.del w.cache key)) [
      | inl (c, done) ↦ ground (arith, C.del_held w.cache key j)
      | inr (x, failed) ↦ ground arith
    ]

    acquire-Kept : (ttl : ℕ) (w : World Ca Tk Lg Ke) → Kept w (acquire C key ttl w).1
    acquire-Kept ttl w = elim (Result-cases (C.set w.cache key w.now ttl)) [
      | inl (c, done) ↦ ground (arith, C.set_held w.cache key w.now ttl j)
      | inr (x, failed) ↦ ground arith
    ]

    guarded-Kept :
        {A : Type 0} (ttl : ℕ) (method : Exec (World Ca Tk Lg Ke) A) (o : Option ℕ)
        (w : World Ca Tk Lg Ke)
        → ((v : World Ca Tk Lg Ke) → Kept v (method v).1)
        → Kept w (guarded C key ttl method o w).1
    unfolding guarded
    guarded-Kept ttl method o w keeps = elim (Bool-cases (taken o)) [
      | inl busy ↦ rw busy refl
      | inr free ↦ elim (Result-cases (acquire C key ttl w).0) [
        | inr (x, failed) ↦ ground (arith, acquire-Kept ttl w)
        | inl (done, fine) ↦ elim (Result-cases (method (acquire C key ttl w).1).0) [
          | inl (a, returned) ↦ ground (arith, acquire-Kept ttl w, keeps (acquire C key ttl w).1)
          | inr (x, thrown) ↦ ground (arith, acquire-Kept ttl w, keeps (acquire C key ttl w).1)
        ]
      ]
    ]

  locked-Kept :
      {A : Type 0} (lock_key j : String) (ttl : ℕ) (method : Exec (World Ca Tk Lg Ke) A)
      (w : World Ca Tk Lg Ke)
      → (lock_value lock_key == j) ≡ false
      → ((v : World Ca Tk Lg Ke) → C.held ((method v).1).cache j ≡ C.held v.cache j)
      → C.held ((with_distributed_lock C lock_key ttl method w).1).cache j ≡ C.held w.cache j
  unfolding with_distributed_lock
  locked-Kept lock_key j ttl method w other keeps = elim (Result-cases (C.get w.cache key)) [
    | inr (x, failed) ↦ ground (arith, release-Kept key j other w, Result-cases (release C key w).0)
    | inl (o, found) ↦
        let after : World Ca Tk Lg Ke = (guarded C key ttl method o w).1 in
        ground (
          arith,
          guarded-Kept key j other ttl method o w keeps,
          release-Kept key j other after,
          Result-cases (release C key after).0,
        )
  ]
    where
      key : String
      key = lock_value lock_key

  probe-Kept :
      (query : Result (Unit {0})) (j : String) (w : World Ca Tk Lg Ke)
      → ("health-check" == j) ≡ false
      → C.held ((quietly C (probe query) w).1).cache j ≡ C.held w.cache j
  unfolding probe
  probe-Kept (throw x) j w other = refl
  probe-Kept (ok answered) j w other =
      elim (Result-cases (C.set w.cache "health-check" w.now 60000)) [
        | inr (x, failed) ↦ ground arith
        | inl (c, done) ↦ elim (Result-cases (C.get c "health-check")) [
          | inl (o, found) ↦ ground (arith, C.set_held w.cache "health-check" w.now 60000 j)
          | inr (x, failed) ↦ ground (arith, C.set_held w.cache "health-check" w.now 60000 j)
        ]
      ]

  -- A health check, however it ends, leaves the tables and the cache's other entries alone: of the
  -- cache it writes its own entry and its lock.
  pub check_system_health-keeps :
      (query : Result (Unit {0})) (w : World Ca Tk Lg Ke) (j : String)
      → ("health-check" == j) ≡ false
      → (lock_value "system-health-check" == j) ≡ false
      → (((check_system_health query w).1).tokens ≡ w.tokens)
        × (((check_system_health query w).1).logs ≡ w.logs)
        × (((check_system_health query w).1).keys ≡ w.keys)
        × (C.held ((check_system_health query w).1).cache j ≡ C.held w.cache j)
  unfolding check_system_health with_distributed_lock
  check_system_health-keeps query w j other unlocked = (
    ground arith,
    ground arith,
    ground arith,
    locked-Kept "system-health-check" j 60000 (quietly C (probe query)) w unlocked
        (λ v. probe-Kept query j v other),
  )
