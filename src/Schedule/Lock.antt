-- ===== src/Schedule/Lock.antt =====
-- One call of a method under the lock.
use text.Mathlib.TextPositions.{eq_refl}
use backend_boilerplate.Base.{Exec, String, arith, none, ok, some, throw, ℕ, ◌≡◌, ◌≢◌}
use backend_boilerplate.Store.{Cache}
use backend_boilerplate.Schedule.{World, lock_value, with_distributed_lock}

module _ {Ca Tk Lg Ke : Type 0} (C : Cache Ca ℕ) {A : Type 0} where
  -- A call that finds the lock taken does not run the method, and, if the deletion succeeds, takes
  -- the lock off its holder: `finally` deletes it on this path too.
  pub with_distributed_lock-taken :
      (key : String) (ttl t : ℕ) (method : Exec (World Ca Tk Lg Ke) A) (w : World Ca Tk Lg Ke)
      (c : Ca)
      → C.get w.cache (lock_value key) ≡ ok (some t)
      → t ≢ 0
      → C.del w.cache (lock_value key) ≡ ok c
      → (with_distributed_lock C key ttl method w ≡ (ok none, record w { cache = c }))
        × (C.held c (lock_value key) ≡ none)
  unfolding with_distributed_lock
  with_distributed_lock-taken key ttl t method w c there positive gone =
      ground (arith, C.del_held w.cache (lock_value key) (lock_value key), eq_refl (lock_value key))

  -- A call that finds the lock free, and whose writes to the cache succeed, runs the method, once, with the lock set; what the method returns or
  -- throws is the outcome, and the lock is off afterwards either way.
  pub with_distributed_lock-free :
      (key : String) (ttl : ℕ) (method : Exec (World Ca Tk Lg Ke) A) (w : World Ca Tk Lg Ke)
      (c d : Ca)
      → C.get w.cache (lock_value key) ≡ ok none
      → C.set w.cache (lock_value key) w.now ttl ≡ ok c
      → C.del ((method (record w { cache = c })).1).cache (lock_value key) ≡ ok d
      → (with_distributed_lock C key ttl method w ≡ (
        (elim (method (record w { cache = c })).0 [ ok a ↦ ok (some a) | throw e ↦ throw e ]),
        record (method (record w { cache = c })).1 { cache = d },
      ))
        × (C.held c (lock_value key) ≡ some w.now)
        × (C.held d (lock_value key) ≡ none)
  unfolding with_distributed_lock
  with_distributed_lock-free key ttl method w c d free set gone =
      let after = method (record w { cache = c }) in
      ground (
        arith,
        eq_refl (lock_value key),
        C.set_held w.cache (lock_value key) w.now ttl (lock_value key),
        C.del_held (after.1).cache (lock_value key) (lock_value key),
      )
