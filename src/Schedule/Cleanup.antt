-- ===== src/Schedule/Cleanup.antt =====
-- What the cleanup tasks delete.
use backend_boilerplate.Base.{
  reads, ◌>>=◌, writes, Result, ok, throw, refl, subst, refl, writes, Exec, Bool-cases, arith, inr,
  inl, Result-cases, Bool, Option, String, ℕ, ◌≡◌, ◌⊎◌,
}
use backend_boilerplate.Store.{Table, Cache, survives}
use backend_boilerplate.Auth.Types.{RefreshToken}
use backend_boilerplate.Idempotency.{IdempotencyKey}
use backend_boilerplate.Schedule.{
  AuditLog, old_log, expired_key, cleanup_old_audit_logs, cleanup_expired_idempotency_keys, guarded,
  quietly, with_tokens, with_logs, with_keys, try_finally, release, World, lock_value, taken,
  with_distributed_lock, expired_token, cleanup_expired_tokens,
}

-- Either every row that the test selects is gone and all others are there, or nothing has changed.
abbrev pub Swept : {V : Type 0} → (V → Bool) → (before after : String → Option V) → Type 0
Swept p before after =
    ((k : String) → after k ≡ survives p (before k)) ⊎ ((k : String) → after k ≡ before k)

-- The rows are the same; the cache may differ.
abbrev pub SameRows : {Ca Tk Lg Ke : Type 0} → World Ca Tk Lg Ke → World Ca Tk Lg Ke → Type 0
SameRows v w = (v.tokens ≡ w.tokens) × (v.logs ≡ w.logs) × (v.keys ≡ w.keys)

-- What a statement leaves of a table: the rows that it returns, or what was there if it throws.
abbrev left_by : {R : Type 0} → Result R → R → R
left_by (ok r') r = r'
left_by (throw e) r = r

swept :
    {R V : Type 0} (T : Table R V) (p : V → Bool) (r r' : R)
    → r' ≡ left_by (T.delete_many r p) r
    → Swept p (T.rows r) (T.rows r')
swept T p r r' e = elim (Result-cases (T.delete_many r p)) [
  | inl (t, done) ↦ inl (λ k. ground (arith, done, e, T.delete_many_rows r p k))
  | inr (x, bad) ↦ inr (λ k. ground (arith, bad, e))
]

module _ {Ca Tk Lg Ke : Type 0} (C : Cache Ca ℕ) where
  released :
      {A : Type 0} (key : String) (m : Exec (World Ca Tk Lg Ke) A) (w : World Ca Tk Lg Ke)
      → SameRows (try_finally m (release C key) w).1 (m w).1
  released key m w = elim (Result-cases (C.del ((m w).1).cache key)) [
    | inl (c, gone) ↦ (ground (arith, gone), ground (arith, gone), ground (arith, gone))
    | inr (x, bad) ↦ (ground (arith, bad), ground (arith, bad), ground (arith, bad))
  ]

  body :
      {A : Type 0} → String → ℕ → Exec (World Ca Tk Lg Ke) A → Exec (World Ca Tk Lg Ke) (Option A)
  body key ttl method = do
    existing ← reads (λ w. C.get w.cache key)
    guarded C key ttl method existing

  body_rows :
      {A : Type 0} (key : String) (ttl : ℕ) (method : Exec (World Ca Tk Lg Ke) A)
      (w : World Ca Tk Lg Ke)
      → ((body key ttl method w).1 ≡ w)
        ⊎ ((c : Ca) × ((body key ttl method w).1 ≡ (method (record w { cache = c })).1))
  unfolding body guarded
  body_rows key ttl method w = elim (Result-cases (C.get w.cache key)) [
    | inr (x, bad) ↦ inl (rw bad refl)
    | inl (o, found) ↦ elim (Bool-cases (taken o)) [
      | inl busy ↦ inl (rw (found, busy) refl)
      | inr free ↦ elim (Result-cases (C.set w.cache key w.now ttl)) [
        | inr (x, bad) ↦ inl (rw (found, free, bad) refl)
        | inl (c, set) ↦ inr (c, ground (arith, found, free, set))
      ]
    ]
  ]

  -- Under the lock a method either does not run or runs once, with another cache.
  locked_rows :
      {A : Type 0} (lock_key : String) (ttl : ℕ) (method : Exec (World Ca Tk Lg Ke) A)
      (w : World Ca Tk Lg Ke)
      → SameRows (with_distributed_lock C lock_key ttl method w).1 w
        ⊎ ((c : Ca) × SameRows
              (with_distributed_lock C lock_key ttl method w).1
              (method (record w { cache = c })).1)
  unfolding with_distributed_lock body
  locked_rows lock_key ttl method w =
      let outer = released (lock_value lock_key) (body (lock_value lock_key) ttl method) w in
      elim (body_rows (lock_value lock_key) ttl method w) [
        | inl kept ↦
            inl (subst (SameRows (with_distributed_lock C lock_key ttl method w).1) kept outer)
        | inr (c, ran) ↦
            inr (c, subst (SameRows (with_distributed_lock C lock_key ttl method w).1) ran outer)
      ]

  -- However it ends, the cleanup of tokens has deleted exactly the tokens that had expired, or none,
  -- and it has touched neither the logs nor the idempotency keys.
  pub cleanup_expired_tokens-Swept :
      (T : Table Tk RefreshToken) (w : World Ca Tk Lg Ke)
      → Swept
          (expired_token w.now)
          (T.rows w.tokens)
          (T.rows ((cleanup_expired_tokens C T w).1).tokens)
        × (((cleanup_expired_tokens C T w).1).logs ≡ w.logs)
        × (((cleanup_expired_tokens C T w).1).keys ≡ w.keys)
  unfolding cleanup_expired_tokens
  cleanup_expired_tokens-Swept T w =
      elim (locked_rows "cleanup-expired-tokens" 300000
        (quietly C (writes (λ v. with_tokens C v (T.delete_many v.tokens (expired_token v.now)))))
        w) [
          | inl (tokens, logs, keys) ↦ (inr (λ k. rw tokens refl), logs, keys)
          | inr (c, (tokens, logs, keys)) ↦
              elim (Result-cases (T.delete_many w.tokens (expired_token w.now))) [
                | inr (x, bad) ↦ (
                  swept T (expired_token w.now) w.tokens ((cleanup_expired_tokens C T w).1).tokens
                      (ground (arith, bad, tokens)),
                  ground (arith, bad, logs),
                  ground (arith, bad, keys),
                )
                | inl (t, done) ↦ (
                  swept T (expired_token w.now) w.tokens ((cleanup_expired_tokens C T w).1).tokens
                      (ground (arith, done, tokens)),
                  ground (arith, done, logs),
                  ground (arith, done, keys),
                )
              ]
        ]

  -- However it ends, the cleanup of the audit logs has deleted exactly those older than ninety days, or
  -- none, and it has touched neither the tokens nor the idempotency keys.
  pub cleanup_old_audit_logs-Swept :
      (T : Table Lg AuditLog) (w : World Ca Tk Lg Ke)
      → Swept (old_log w.now) (T.rows w.logs) (T.rows ((cleanup_old_audit_logs C T w).1).logs)
        × (((cleanup_old_audit_logs C T w).1).tokens ≡ w.tokens)
        × (((cleanup_old_audit_logs C T w).1).keys ≡ w.keys)
  unfolding cleanup_old_audit_logs
  cleanup_old_audit_logs-Swept T w =
      elim (locked_rows "cleanup-old-audit-logs" 600000
        (quietly C (writes (λ v. with_logs C v (T.delete_many v.logs (old_log v.now))))) w) [
          | inl (tokens, logs, keys) ↦ (inr (λ k. rw logs refl), tokens, keys)
          | inr (c, (tokens, logs, keys)) ↦
              elim (Result-cases (T.delete_many w.logs (old_log w.now))) [
                | inr (x, bad) ↦ (
                  swept T (old_log w.now) w.logs ((cleanup_old_audit_logs C T w).1).logs
                      (ground (arith, bad, logs)),
                  ground (arith, bad, tokens),
                  ground (arith, bad, keys),
                )
                | inl (t, done) ↦ (
                  swept T (old_log w.now) w.logs ((cleanup_old_audit_logs C T w).1).logs
                      (ground (arith, done, logs)),
                  ground (arith, done, tokens),
                  ground (arith, done, keys),
                )
              ]
        ]

  -- However it ends, the cleanup of idempotency keys has deleted exactly those that had expired, or
  -- none, and it has touched neither the tokens nor the logs.
  pub cleanup_expired_idempotency_keys-Swept :
      (T : Table Ke IdempotencyKey) (w : World Ca Tk Lg Ke)
      → Swept
          (expired_key w.now)
          (T.rows w.keys)
          (T.rows ((cleanup_expired_idempotency_keys C T w).1).keys)
        × (((cleanup_expired_idempotency_keys C T w).1).tokens ≡ w.tokens)
        × (((cleanup_expired_idempotency_keys C T w).1).logs ≡ w.logs)
  unfolding cleanup_expired_idempotency_keys
  cleanup_expired_idempotency_keys-Swept T w =
      elim (locked_rows "cleanup-expired-idempotency-keys" 120000
        (quietly C (writes (λ v. with_keys C v (T.delete_many v.keys (expired_key v.now))))) w) [
          | inl (tokens, logs, keys) ↦ (inr (λ k. rw keys refl), tokens, logs)
          | inr (c, (tokens, logs, keys)) ↦
              elim (Result-cases (T.delete_many w.keys (expired_key w.now))) [
                | inr (x, bad) ↦ (
                  swept T (expired_key w.now) w.keys
                      ((cleanup_expired_idempotency_keys C T w).1).keys (ground (arith, bad, keys)),
                  ground (arith, bad, tokens),
                  ground (arith, bad, logs),
                )
                | inl (t, done) ↦ (
                  swept T (expired_key w.now) w.keys
                      ((cleanup_expired_idempotency_keys C T w).1).keys
                      (ground (arith, done, keys)),
                  ground (arith, done, tokens),
                  ground (arith, done, logs),
                )
              ]
        ]
