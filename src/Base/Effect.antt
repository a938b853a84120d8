-- ===== src/Base/Effect.antt =====
-- Exceptions, and methods that change a state and may throw. What was written before a throw
-- stays written, so the state comes back beside the exception too.
use Prim.Native.Nat.{ℕ}
use Prim.Native.String.{String}
use mathlib.Core.Path.{◌≡◌, refl}
use native.Mathlib.Omega.{arith}
use mathlib.Core.Logic.{◌⊎◌, inl, inr}

-- A Nest `HttpException` with its status and message, or any other `Error`.
pub data Exception : Type 0 where
  http : ℕ → String → Exception
  error : String → Exception

pub data Result {ℓ} (A : Type ℓ) : Type ℓ where
  ok : A → Result A
  throw : Exception → Result A

module _ {ℓ} {A : Type ℓ} where
  -- Of a call that returned.
  abbrev pub Ensures : (A → Type 0) → Result A → Type 0
  Ensures P (ok a) = P a
  Ensures P (throw e) = Unit {0}

  pub Result-cases : (r : Result A) → ((a : A) × (r ≡ ok a)) ⊎ ((e : Exception) × (r ≡ throw e))
  Result-cases (ok a) = inl (a, refl)
  Result-cases (throw e) = inr (e, refl)

abbrev pub Exec : Type 0 → Type 0 → Type 0
Exec S A = S → Result A × S

module _ {S A : Type 0} where
  abbrev pub pure : A → Exec S A
  pure a s = (ok a, s)

  abbrev pub raise : Exception → Exec S A
  raise e s = (throw e, s)

  -- A call that only reads the state.
  abbrev pub reads : (S → Result A) → Exec S A
  reads f s = (f s, s)

  -- `try { m } catch (error) { h }`
  abbrev pub recover : (Exception → Exec S A) → Result A → S → Result A × S
  recover h (ok a) s = (ok a, s)
  recover h (throw e) s = h e s

  abbrev pub try_catch : Exec S A → (Exception → Exec S A) → Exec S A
  try_catch m h s = recover h (m s).0 (m s).1

module _ {S : Type 0} where
  abbrev pub stored : Result S → S → Result (Unit {0}) × S
  stored (ok s') s = (ok tt, s')
  stored (throw e) s = (throw e, s)

  -- A call that writes: if it throws, nothing is written.
  abbrev pub writes : (S → Result S) → Exec S (Unit {0})
  writes f s = stored (f s) s

  abbrev pub modify : (S → S) → Exec S (Unit {0})
  modify f s = (ok tt, f s)

module _ {S A B : Type 0} where
  abbrev pub and_then : Result A → (A → Exec S B) → S → Result B × S
  and_then (ok a) f s = f a s
  and_then (throw e) f s = (throw e, s)

  infixl 5 ◌>>=◌ ◌>>◌
  abbrev pub ◌>>=◌ : Exec S A → (A → Exec S B) → Exec S B
  ◌>>=◌ m f s = and_then (m s).0 f (m s).1

  abbrev pub ◌>>◌ : Exec S A → Exec S B → Exec S B
  m >> k = m >>= λ _. k

-- A handler that always throws `x` hides every other exception.
pub try_catch-throws :
    {S A : Type 0} (m : Exec S A) (x : Exception) {y : Exception} (s : S) {s' : S}
    → try_catch m (λ _. raise x) s ≡ (throw y, s')
    → y ≡ x
try_catch-throws m x s e = ground arith
