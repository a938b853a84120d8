-- ===== src/Schedule/Cluster.antt =====
-- Several instances of the server under one lock: the awaits of `withDistributedLock` split it into
-- steps, between which the others run. The cache never loses the lock by itself here.
use backend_boilerplate.Base.{Bool, arith, false, if◌then◌else◌, nat_eq, refl, true, ℕ, ◌≡◌, ◌≢◌}

pub data Phase : Type 0 where
  idle checked running : Phase

pub record Cluster : Type 0 where
  pub lock : Bool
  pub phase : ℕ → Phase

abbrev pub move : (ℕ → Phase) → ℕ → Phase → ℕ → Phase
move f i p j = if nat_eq i j then p else f j

pub data Step : Cluster → Cluster → Type 0 where
  -- `cache.get` finds no lock
  check_free :
      (s : Cluster) (i : ℕ)
      → s.phase i ≡ idle
      → s.lock ≡ false
      → Step s (record s { phase = move s.phase i checked })
  -- `cache.get` finds the lock: the call returns, and `finally` deletes it
  check_taken :
      (s : Cluster) (i : ℕ) → s.phase i ≡ idle → s.lock ≡ true → Step s (record s { lock = false })
  -- `cache.set`, and the method starts
  acquire :
      (s : Cluster) (i : ℕ)
      → s.phase i ≡ checked
      → Step s (record { lock = true; phase = move s.phase i running })
  -- the method ends, and `finally` deletes the lock
  finish :
      (s : Cluster) (i : ℕ)
      → s.phase i ≡ running
      → Step s (record { lock = false; phase = move s.phase i idle })

pub data Reach (s : Cluster) : Cluster → Type 0 where
  start : Reach s s
  next : {t u : Cluster} → Reach s t → Step t u → Reach s u

-- From a free lock, two idle instances can come to run the method at the same time, where a third
-- one is idle at the start.
pub two_running :
    (s : Cluster) (i j k : ℕ)
    → i ≢ j
    → i ≢ k
    → s.lock ≡ false
    → s.phase i ≡ idle
    → s.phase j ≡ idle
    → s.phase k ≡ idle
    → (t : Cluster) × Reach s t × (t.phase i ≡ running) × (t.phase j ≡ running)
two_running s i j k ij ik free pi pj pk =
    let s1 : Cluster = record s { phase = move s.phase i checked } in
    let s2 : Cluster = record { lock = true; phase = move s1.phase i running } in
    let s3 : Cluster = record s2 { lock = false } in
    let s4 : Cluster = record s3 { phase = move s3.phase j checked } in
    let s5 : Cluster = record { lock = true; phase = move s4.phase j running } in
    (
      s5,
      next
          (next
            (next (next (next start (check_free s i pi free)) (acquire s1 i (ground arith)))
              (check_taken s2 k (ground arith) refl))
            (check_free s3 j (ground arith) refl))
          (acquire s4 j (ground arith)),
      ground arith,
      ground arith,
    )
