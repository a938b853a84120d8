-- ===== src/FeatureFlag/Coherence.antt =====
-- The cached answers against the database.
use backend_boilerplate.Base.{
  ◌≡◌, Bool, true, false, not, Option, none, some, String, ◌==◌, if◌then◌else◌, eq_iff, arith, ok,
  sym, subst,
}
use text.Mathlib.TextPositions.{eq_refl}
use backend_boilerplate.Store.{Table, Cache}
use backend_boilerplate.FeatureFlag.Ports.{
  FeatureFlag, CreateFeatureFlagInput, created, upserted_flag, set_enabled, Flags, to_cache_key,
  to_cache_key-==,
}
use backend_boilerplate.FeatureFlag.{
  cache_ttl, is_enabled, enable, disable, toggle, create_flag, delete_flag,
}

-- What the database says of a flag; one that is not there is disabled.
abbrev pub flag_state : Option FeatureFlag → Bool
flag_state none = false
flag_state (some f) = f.enabled

abbrev pub Agrees : Option Bool → Bool → Type 0
Agrees none b = Unit {0}
Agrees (some c) b = c ≡ b

module _ {Db Ca : Type 0} (T : Table Db FeatureFlag) (C : Cache Ca Bool) where
  abbrev pub enabled_in : Flags Db Ca → String → Bool
  enabled_in w key = flag_state (T.rows w.db key)

  -- Every answer that the cache may give is the one in the database.
  abbrev pub Coherent : Flags Db Ca → Type 0
  Coherent w = (j : String) → Agrees (C.held w.cache (to_cache_key j)) (enabled_in w j)

  is_enabled_at :
      (w w' : Flags Db Ca) (key : String) (b : Bool) (j : String)
      → Coherent w
      → is_enabled T C key w ≡ (ok b, w')
      → (b ≡ enabled_in w key)
        × (w'.db ≡ w.db)
        × Agrees (C.held w'.cache (to_cache_key j)) (enabled_in w j)
  unfolding is_enabled
  is_enabled_at w w' key b j v e = ground (
    arith,
    v key,
    v j,
    eq_iff key j,
    to_cache_key-== key j,
    C.get_lem w.cache (to_cache_key key),
    T.find_unique_lem w.db key,
    C.set_held w.cache (to_cache_key key) false cache_ttl (to_cache_key j),
    C.set_held w.cache (to_cache_key key) true cache_ttl (to_cache_key j),
  )

  -- With a coherent cache, an answer of `is_enabled` is the database's, whether it came from the
  -- cache or not; the database is not changed and the cache stays coherent.
  pub is_enabled-Coherent :
      (w w' : Flags Db Ca) (key : String) (b : Bool)
      → Coherent w
      → is_enabled T C key w ≡ (ok b, w')
      → (b ≡ enabled_in w key) × (w'.db ≡ w.db) × Coherent w'
  is_enabled-Coherent w w' key b v e =
      let (answer, same, _) = is_enabled_at w w' key b key v e in
      (
        answer,
        same,
        λ j.
            subst (λ db. Agrees (C.held w'.cache (to_cache_key j)) (flag_state (T.rows db j)))
              (sym same) (is_enabled_at w w' key b j v e).2,
      )

  -- A flag whose write returned has the value that was written, no other flag has changed, and the
  -- cache is coherent.
  abbrev pub Updated : Flags Db Ca → String → Bool → Flags Db Ca → Type 0
  Updated w key b w' =
      Coherent w' × ((j : String) → enabled_in w' j ≡ (if key == j then b else enabled_in w j))

  changed_at :
      (w w' : Flags Db Ca) (key : String) (b : Bool)
      → ((j : String)
          → Agrees (C.held w'.cache (to_cache_key j)) (enabled_in w' j)
            × (enabled_in w' j ≡ (if key == j then b else enabled_in w j)))
      → Updated w key b w'
  changed_at w w' key b h = ((λ j. (h j).0), (λ j. (h j).1))

  -- With a coherent cache, an `enable` that returns has set the flag in the database, changed no
  -- other flag, and leaves the cache coherent.
  pub enable-Updated :
      (w w' : Flags Db Ca) (key : String)
      → Coherent w
      → enable T C key w ≡ (ok tt, w')
      → Updated w key true w'
  unfolding enable
  enable-Updated w w' key v e = changed_at w w' key true λ j. ground (
    arith,
    v j,
    to_cache_key-== key j,
    C.del_held w.cache (to_cache_key key) (to_cache_key j),
    T.upsert_rows w.db key (set_enabled true) (upserted_flag key true) j,
  )

  -- With a coherent cache, a `disable` that returns has cleared the flag in the database, changed no
  -- other flag, and leaves the cache coherent.
  pub disable-Updated :
      (w w' : Flags Db Ca) (key : String)
      → Coherent w
      → disable T C key w ≡ (ok tt, w')
      → Updated w key false w'
  unfolding disable
  disable-Updated w w' key v e = changed_at w w' key false λ j. ground (
    arith,
    v j,
    to_cache_key-== key j,
    C.del_held w.cache (to_cache_key key) (to_cache_key j),
    T.update_rows w.db key (set_enabled false) j,
  )

  -- With a coherent cache, a `delete` that returns has left the key without an enabled flag, changed
  -- no other flag, and leaves the cache coherent.
  pub delete_flag-Updated :
      (w w' : Flags Db Ca) (key : String)
      → Coherent w
      → delete_flag T C key w ≡ (ok tt, w')
      → Updated w key false w'
  unfolding delete_flag
  delete_flag-Updated w w' key v e = changed_at w w' key false λ j. ground (
    arith,
    v j,
    to_cache_key-== key j,
    C.del_held w.cache (to_cache_key key) (to_cache_key j),
    T.delete_rows w.db key j,
  )

  toggle_at :
      (w w' : Flags Db Ca) (key : String) (b : Bool) (j : String)
      → Coherent w
      → toggle T C key w ≡ (ok b, w')
      → (b ≡ not (enabled_in w key))
        × Agrees (C.held w'.cache (to_cache_key j)) (enabled_in w' j)
        × (enabled_in w' j ≡ (if key == j then b else enabled_in w j))
  unfolding toggle
  toggle_at w w' key b j v e = ground (
    arith,
    v j,
    to_cache_key-== key j,
    eq_iff key j,
    C.del_held w.cache (to_cache_key key) (to_cache_key j),
    T.find_unique_lem w.db key,
    T.update_rows w.db key (set_enabled true) j,
    T.update_found w.db key (set_enabled true),
    T.update_found w.db key (set_enabled false),
    T.update_rows w.db key (set_enabled false) j,
  )

  -- With a coherent cache, a `toggle` that returns answers with the opposite of the database's value
  -- and has written it, changed no other flag, and leaves the cache coherent.
  pub toggle-Updated :
      (w w' : Flags Db Ca) (key : String) (b : Bool)
      → Coherent w
      → toggle T C key w ≡ (ok b, w')
      → (b ≡ not (enabled_in w key)) × Updated w key b w'
  toggle-Updated w w' key b v e = (
    (toggle_at w w' key b key v e).0,
    changed_at w w' key b λ j. let (_, a, u) = toggle_at w w' key b j v e in (a, u),
  )

  -- `create` leaves the cache alone: a flag that is created enabled after its absence was cached
  -- is still answered as disabled while the entry lasts.
  pub create_flag-stale :
      (w w' : Flags Db Ca) (input : CreateFeatureFlagInput)
      → input.enabled ≡ true
      → C.get w.cache (to_cache_key input.key) ≡ ok (some false)
      → create_flag T C input w ≡ (ok tt, w')
      → (enabled_in w' input.key ≡ true) × (is_enabled T C input.key w' ≡ (ok false, w'))
  unfolding create_flag is_enabled
  create_flag-stale w w' i on cached e =
      ground (arith, eq_refl i.key, T.create_rows w.db i.key (created i) i.key)
