-- ===== src/FeatureFlag/Ports.antt =====
-- src/domains/feature-flag/infrastructure: feature-flag.repository.ts and feature-flag.cache.ts.
use Prim.Native.String.{◌++◌ as str_append}
use text.Mathlib.TextLemmas.{append_cancel_left}
use backend_boilerplate.Base.{
  ℕ, ◌≡◌, Bool, Option, some, String, ◌==◌, eq_iff, arith, Result, ok, throw, Exec, reads, writes,
}
use backend_boilerplate.Store.{Table, Cache}

pub record FeatureFlag : Type 0 where
  pub key : String
  pub name : String
  pub description : Option String
  pub enabled : Bool

pub record CreateFeatureFlagInput : Type 0 where
  pub key : String
  pub name : String
  pub description : Option String
  pub enabled : Bool

-- The two stores that the feature reads and writes.
pub record Flags (Db Ca : Type 0) : Type 0 where
  pub db : Db
  pub cache : Ca

unfoldable pub to_cache_key : String → String
to_cache_key key = str_append "feature:" key

to_cache_key-injective : (k j : String) → to_cache_key k ≡ to_cache_key j → k ≡ j
unfolding to_cache_key
to_cache_key-injective k j e = append_cancel_left "feature:" k j e

-- Two flags share no cache entry.
pub to_cache_key-== : (k j : String) → (to_cache_key k == to_cache_key j) ≡ (k == j)
to_cache_key-== k j =
    ground (arith, eq_iff k j, eq_iff (to_cache_key k) (to_cache_key j), to_cache_key-injective k j)

abbrev pub set_enabled : Bool → FeatureFlag → FeatureFlag
set_enabled enabled f = record f { enabled = enabled }

abbrev pub created : CreateFeatureFlagInput → FeatureFlag
created i = record { key = i.key; name = i.name; description = i.description; enabled = i.enabled }

abbrev pub upserted_flag : String → Bool → FeatureFlag
upserted_flag key enabled = record {
  key = key;
  name = key;
  description = some (str_append "Feature flag for " key);
  enabled = enabled;
}

module _ {Db Ca : Type 0} (T : Table Db FeatureFlag) where
  abbrev pub find_by_key : String → Exec (Flags Db Ca) (Option FeatureFlag)
  find_by_key key = reads (λ w. T.find_unique w.db key)

  abbrev with_db : Flags Db Ca → Result Db → Result (Flags Db Ca)
  with_db w (ok db) = ok (record w { db = db })
  with_db w (throw e) = throw e

  abbrev pub create : CreateFeatureFlagInput → Exec (Flags Db Ca) (Unit {0})
  create i = writes (λ w. with_db w (T.create w.db i.key (created i)))

  abbrev pub upsert_enabled : String → Bool → Exec (Flags Db Ca) (Unit {0})
  upsert_enabled key enabled =
      writes (λ w. with_db w (T.upsert w.db key (set_enabled enabled) (upserted_flag key enabled)))

  abbrev pub update_enabled : String → Bool → Exec (Flags Db Ca) (Unit {0})
  update_enabled key enabled = writes (λ w. with_db w (T.update w.db key (set_enabled enabled)))

  abbrev pub delete_by_key : String → Exec (Flags Db Ca) (Unit {0})
  delete_by_key key = writes (λ w. with_db w (T.delete w.db key))

module _ {Db Ca : Type 0} (C : Cache Ca Bool) where
  abbrev pub cache_get : String → Exec (Flags Db Ca) (Option Bool)
  cache_get key = reads (λ w. C.get w.cache (to_cache_key key))

  abbrev with_cache : Flags Db Ca → Result Ca → Result (Flags Db Ca)
  with_cache w (ok cache) = ok (record w { cache = cache })
  with_cache w (throw e) = throw e

  abbrev pub cache_set : String → Bool → ℕ → Exec (Flags Db Ca) (Unit {0})
  cache_set key enabled ttl_ms =
      writes (λ w. with_cache w (C.set w.cache (to_cache_key key) enabled ttl_ms))

  abbrev pub cache_del : String → Exec (Flags Db Ca) (Unit {0})
  cache_del key = writes (λ w. with_cache w (C.del w.cache (to_cache_key key)))
