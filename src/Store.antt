-- ===== src/Store.antt =====
-- The Prisma client and the cache manager as the program sees them: interfaces, with what their
-- documentation promises. Neither is implemented in the repository.
pub mod Assoc
pub mod Beside
use backend_boilerplate.Base.{
  ℕ, ◌≡◌, ◌≢◌, ◌⊎◌, Bool, Option, none, some, String, ◌==◌, if◌then◌else◌, Result, Ensures,
}

-- A row that a filter of `deleteMany` leaves.
abbrev pub survives {ℓ} : {V : Type ℓ} → (V → Bool) → Option V → Option V
survives p none = none
survives p (some v) = if p v then none else some v

abbrev pub edited {ℓ} : {V : Type ℓ} → (V → V) → Option V → Option V
edited f none = none
edited f (some v) = some (f v)

abbrev pub upserted {ℓ} : {V : Type ℓ} → (V → V) → V → Option V → Option V
upserted f v none = some v
upserted f v (some w) = some (f w)

-- A Prisma model with a unique text column. `rows` is the table's content, which only the laws
-- name; each call may throw, for a constraint or a lost connection, and then has written nothing.
pub record Table (S V : Type 0) : Type 0 where
  pub rows : S → String → Option V
  pub find_unique : S → String → Result (Option V)
  pub create : S → String → V → Result S
  pub update : S → String → (V → V) → Result S
  pub upsert : S → String → (V → V) → V → Result S
  pub delete : S → String → Result S
  pub delete_many : S → (V → Bool) → Result S
  pub find_unique_lem : (s : S) (k : String) → Ensures (λ o. o ≡ rows s k) (find_unique s k)
  -- P2002: the unique constraint fails
  pub create_unique : (s : S) (k : String) (v : V) → Ensures (λ _. rows s k ≡ none) (create s k v)
  pub create_rows :
      (s : S) (k : String) (v : V) (j : String)
      → Ensures (λ t. rows t j ≡ (if k == j then some v else rows s j)) (create s k v)
  pub update_rows :
      (s : S) (k : String) (f : V → V) (j : String)
      → Ensures (λ t. rows t j ≡ (if k == j then edited f (rows s j) else rows s j)) (update s k f)
  pub upsert_rows :
      (s : S) (k : String) (f : V → V) (v : V) (j : String)
      → Ensures
          (λ t. rows t j ≡ (if k == j then upserted f v (rows s j) else rows s j))
          (upsert s k f v)
  pub delete_rows :
      (s : S) (k j : String)
      → Ensures (λ t. rows t j ≡ (if k == j then none else rows s j)) (delete s k)
  -- P2025: the record to change is not there
  pub update_found :
      (s : S) (k : String) (f : V → V) → Ensures (λ _. rows s k ≢ none) (update s k f)
  pub delete_found : (s : S) (k : String) → Ensures (λ _. rows s k ≢ none) (delete s k)
  pub delete_many_rows :
      (s : S) (p : V → Bool) (j : String)
      → Ensures (λ t. rows t j ≡ survives p (rows s j)) (delete_many s p)

-- `cache-manager`. `held` is what was last set and not deleted; an entry may be gone earlier, as
-- its time to live ends or the cache evicts it.
pub record Cache (S V : Type 0) : Type 0 where
  pub held : S → String → Option V
  pub get : S → String → Result (Option V)
  pub set : S → String → V → ℕ → Result S
  pub del : S → String → Result S
  pub get_lem : (s : S) (k : String) → Ensures (λ o. (o ≡ none) ⊎ (o ≡ held s k)) (get s k)
  pub set_held :
      (s : S) (k : String) (v : V) (ttl : ℕ) (j : String)
      → Ensures (λ t. held t j ≡ (if k == j then some v else held s j)) (set s k v ttl)
  pub del_held :
      (s : S) (k j : String)
      → Ensures (λ t. held t j ≡ (if k == j then none else held s j)) (del s k)
