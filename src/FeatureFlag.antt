-- ===== src/FeatureFlag.antt =====
-- src/domains/feature-flag/application/feature-flag.service.ts, each method an action over the two
-- stores behind the ports. `findAll`, `findOne` and `clearCache` change nothing and are left out.
pub mod Ports
mod Coherence
mod Refinement
mod Guard
pub mod Routes
mod Tests
use Prim.Native.String.{◌++◌ as str_append}
use backend_boilerplate.Base.{
  ℕ, Bool, true, false, not, Option, none, some, String, Exec, pure, raise, error, ◌>>=◌, ◌>>◌,
}
use backend_boilerplate.Store.{Table, Cache}
use Ports.{
  FeatureFlag, CreateFeatureFlagInput, Flags, find_by_key, create, upsert_enabled, update_enabled,
  delete_by_key, cache_get, cache_set, cache_del,
}

-- 5 minutes, in milliseconds
abbrev pub cache_ttl : ℕ
cache_ttl = 300000

module _ {Db Ca : Type 0} (T : Table Db FeatureFlag) (C : Cache Ca Bool) where
  -- A flag that is not in the database counts as disabled, and that is cached too.
  pub remember : String → Option FeatureFlag → Exec (Flags Db Ca) Bool
  remember key none = do cache_set C key false cache_ttl; pure false
  remember key (some feature) = do cache_set C key feature.enabled cache_ttl; pure feature.enabled

  or_database : String → Option Bool → Exec (Flags Db Ca) Bool
  or_database key (some cached) = pure cached
  or_database key none = do feature ← find_by_key T key; remember key feature

  pub is_enabled : String → Exec (Flags Db Ca) Bool
  unfolding remember or_database
  is_enabled key = do cached ← cache_get C key; or_database key cached

  pub enable : String → Exec (Flags Db Ca) (Unit {0})
  enable key = do upsert_enabled T key true; cache_del C key

  pub disable : String → Exec (Flags Db Ca) (Unit {0})
  disable key = do update_enabled T key false; cache_del C key

  flip : String → Option FeatureFlag → Exec (Flags Db Ca) Bool
  flip key none = raise (error (str_append "Feature flag not found: " key))
  flip key (some feature) = do
    update_enabled T key (not feature.enabled)
    cache_del C key
    pure (not feature.enabled)

  pub toggle : String → Exec (Flags Db Ca) Bool
  unfolding flip
  toggle key = do feature ← find_by_key T key; flip key feature

  -- It leaves the cache alone.
  pub create_flag : CreateFeatureFlagInput → Exec (Flags Db Ca) (Unit {0})
  create_flag input = create T input

  pub delete_flag : String → Exec (Flags Db Ca) (Unit {0})
  delete_flag key = do delete_by_key T key; cache_del C key
