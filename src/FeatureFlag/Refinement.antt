-- ===== src/FeatureFlag/Refinement.antt =====
-- The service against a plain map of switches, and what an update between the steps of a lookup does
-- to that view.
use mathlib.Core.Path.{fun_ext}
use text.Mathlib.TextPositions.{eq_refl}
use backend_boilerplate.Base.{
  refl, Result, ap, subst, Bool, Exec, List, Option, Result-cases, String, [], arith, false,
  if◌then◌else◌, inl, inr, none, not, ok, pure, some, true, ◌==◌, ◌>>=◌, ◌>>◌, ◌∷◌, ◌≡◌,
}
use backend_boilerplate.Store.{Table, Cache}
use backend_boilerplate.FeatureFlag.Ports.{
  FeatureFlag, Flags, find_by_key, set_enabled, upserted_flag, to_cache_key,
}
use backend_boilerplate.FeatureFlag.{
  cache_ttl, is_enabled, enable, disable, toggle, delete_flag, remember,
}
use backend_boilerplate.FeatureFlag.Coherence.{
  flag_state, enabled_in, Coherent, Updated, is_enabled-Coherent, enable-Updated, disable-Updated,
  delete_flag-Updated, toggle-Updated,
}

-- What the service is asked to do to a key.
pub data Call : Type 0 where
  ask turn_on turn_off flip_over remove : (key : String) → Call

-- The contract: a switch for every key, and the answer of a call that has one.
abbrev pub Switches : Type 0
Switches = String → Bool

abbrev pub switched : String → Bool → Switches → Switches
switched key b s j = if key == j then b else s j

abbrev pub promised : Call → Switches → Option Bool × Switches
promised (ask key) s = (some (s key), s)
promised (turn_on key) s = (none, switched key true s)
promised (turn_off key) s = (none, switched key false s)
promised (flip_over key) s = (some (not (s key)), switched key (not (s key)) s)
promised (remove key) s = (none, switched key false s)

abbrev pub promised_all : List Call → Switches → List (Option Bool) × Switches
promised_all [] s = ([], s)
promised_all (c ∷ cs) s =
    let rest = promised_all cs (promised c s).1 in ((promised c s).0 ∷ rest.0, rest.1)

module _ {Db Ca : Type 0} (T : Table Db FeatureFlag) (C : Cache Ca Bool) where
  unfoldable pub perform : Call → Exec (Flags Db Ca) (Option Bool)
  perform (ask key) = do b ← is_enabled T C key; pure (some b)
  perform (turn_on key) = do enable T C key; pure none
  perform (turn_off key) = do disable T C key; pure none
  perform (flip_over key) = do b ← toggle T C key; pure (some b)
  perform (remove key) = do delete_flag T C key; pure none

  unfoldable pub perform_all : List Call → Exec (Flags Db Ca) (List (Option Bool))
  unfolding perform
  perform_all [] = pure []
  perform_all (c ∷ cs) = do answer ← perform c; rest ← perform_all cs; pure (answer ∷ rest)

  -- One call, as a step of the contract.
  abbrev Refines : Call → Flags Db Ca → Option Bool → Flags Db Ca → Type 0
  Refines c w answer w' =
      Coherent T C w' × ((answer, enabled_in T C w') ≡ promised c (enabled_in T C w))

  finished :
      {A : Type 0} (m : Exec (Flags Db Ca) A) (f : A → Option Bool) (w w' : Flags Db Ca)
      (answer : Option Bool)
      → (m >>= (λ a. pure (f a))) w ≡ (ok answer, w')
      → (a : A) × (m w ≡ (ok a, w')) × (answer ≡ f a)
  finished m f w w' answer e = elim (Result-cases (m w).0) [
    | inl (a, fine) ↦ (a, ground arith, ground arith)
    | inr (x, bad) ↦ absurd (ground arith)
  ]

  written :
      (w w' : Flags Db Ca) (key : String) (b : Bool)
      → Updated T C w key b w'
      → enabled_in T C w' ≡ switched key b (enabled_in T C w)
  written w w' key b u = fun_ext u.1

  perform-Refines :
      (c : Call) (w w' : Flags Db Ca) (answer : Option Bool)
      → Coherent T C w
      → perform c w ≡ (ok answer, w')
      → Refines c w answer w'
  unfolding perform
  perform-Refines (ask key) w w' answer v e =
      let (b, ran, shape) = finished (is_enabled T C key) (λ b. some b) w w' answer e in
      let (right, same, kept) = is_enabled-Coherent T C w w' key b v ran in
      (
        kept,
        rw (shape, right) (λ i. (some (enabled_in T C w key), λ j. flag_state (T.rows (same i) j))),
      )
  perform-Refines (turn_on key) w w' answer v e =
      let (_, ran, shape) = finished (enable T C key) (λ _. none) w w' answer e in
      let u = enable-Updated T C w w' key v ran in (u.0, rw (shape, written w w' key true u) refl)
  perform-Refines (turn_off key) w w' answer v e =
      let (_, ran, shape) = finished (disable T C key) (λ _. none) w w' answer e in
      let u = disable-Updated T C w w' key v ran in (u.0, rw (shape, written w w' key false u) refl)
  perform-Refines (flip_over key) w w' answer v e =
      let (b, ran, shape) = finished (toggle T C key) (λ b. some b) w w' answer e in
      let (opposite, u) = toggle-Updated T C w w' key b v ran in
      (u.0, rw (shape, written w w' key b u, opposite) refl)
  perform-Refines (remove key) w w' answer v e =
      let (_, ran, shape) = finished (delete_flag T C key) (λ _. none) w w' answer e in
      let u = delete_flag-Updated T C w w' key v ran in
      (u.0, rw (shape, written w w' key false u) refl)

  -- From a coherent cache on, any sequence of lookups, enablings, disablings, toggles and deletions that
  -- all return gives the answers of a plain map of switches, which starts as the database's flags,
  -- and leaves the database's flags as that map and the cache coherent. Creations are not among them:
  -- one may leave a stale cache entry behind.
  pub perform_all-refines :
      (calls : List Call) (w w' : Flags Db Ca) (answers : List (Option Bool))
      → Coherent T C w
      → perform_all calls w ≡ (ok answers, w')
      → Coherent T C w' × ((answers, enabled_in T C w') ≡ promised_all calls (enabled_in T C w))
  unfolding perform_all
  perform_all-refines [] w w' answers v e = (
    subst (Coherent T C) (ap (λ (p : Result (List (Option Bool)) × Flags Db Ca). p.1) e) v,
    ground arith,
  )
  perform_all-refines (c ∷ cs) w w' answers v e = elim (Result-cases (perform c w).0) [
    | inr (x, bad) ↦ absurd (ground arith)
    | inl (a, first) ↦ elim (Result-cases (perform_all cs (perform c w).1).0) [
      | inr (x, bad) ↦ absurd (ground arith)
      | inl (rest, others) ↦
          let (kept, step) = perform-Refines c w (perform c w).1 a v (ground arith) in
          let (kept', steps) = perform_all-refines cs (perform c w).1 w' rest kept (ground arith) in
          let shape : answers ≡ a ∷ rest = ground arith in
          let next : enabled_in T C (perform c w).1 ≡ (promised c (enabled_in T C w)).1 =
            λ i. (step i).1 in
          let ends : ◌≡◌ {A = List (Option Bool) × Switches} (rest, enabled_in T C w')
              (promised_all cs (promised c (enabled_in T C w)).1) =
            subst
              (λ (s : Switches).
                ◌≡◌ {A = List (Option Bool) × Switches} (rest, enabled_in T C w')
                  (promised_all cs s))
              next steps in
          (kept', rw shape (λ i. ((step i).0 ∷ (ends i).0, (ends i).1)))
    ]
  ]

  -- An update that runs between a lookup's read of the database and its write to the cache is lost
  -- for readers: the lookup caches the old value after the update has deleted the entry, so the flag
  -- is on in the database and cached as off.
  pub enable_during_lookup :
      (w w1 w2 : Flags Db Ca) (key : String) (o : Option FeatureFlag) (b : Bool)
      → find_by_key T key w ≡ (ok o, w)
      → flag_state o ≡ false
      → enable T C key w ≡ (ok tt, w1)
      → remember T C key o w1 ≡ (ok b, w2)
      → (enabled_in T C w2 key ≡ true)
        × (C.held w2.cache (to_cache_key key) ≡ some false)
        × (b ≡ false)
  unfolding enable remember
  enable_during_lookup w w1 w2 key none b read off on late = ground (
    arith,
    T.upsert_rows w.db key (set_enabled true) (upserted_flag key true) key,
    C.set_held w1.cache (to_cache_key key) false cache_ttl (to_cache_key key),
    eq_refl key,
    eq_refl (to_cache_key key),
  )
  enable_during_lookup w w1 w2 key (some f) b read off on late = ground (
    arith,
    T.upsert_rows w.db key (set_enabled true) (upserted_flag key true) key,
    C.set_held w1.cache (to_cache_key key) f.enabled cache_ttl (to_cache_key key),
    eq_refl key,
    eq_refl (to_cache_key key),
  )
