-- ===== src/FeatureFlag/Guard.antt =====
-- src/domains/feature-flag/presentation/guards/feature-flag.guard.ts
use Prim.Native.String.{◌++◌ as str_append}
use backend_boilerplate.Base.{
  ◌≡◌, Bool, true, false, Option, none, some, String, ok, Exec, pure, raise, http, truthy,
  if◌then◌else◌, ◌>>=◌, arith,
}
use backend_boilerplate.Store.{Table, Cache}
use backend_boilerplate.FeatureFlag.Ports.{FeatureFlag, Flags}
use backend_boilerplate.FeatureFlag.{is_enabled}
use backend_boilerplate.FeatureFlag.Coherence.{Coherent, enabled_in, is_enabled-Coherent}

module _ {Db Ca : Type 0} (T : Table Db FeatureFlag) (C : Cache Ca Bool) where
  admit : String → Bool → Exec (Flags Db Ca) Bool
  admit key true = pure true
  admit key false = raise (http 403 (str_append "Feature '" (str_append key "' is not enabled")))

  -- The key is the handler's or the class's `@FeatureFlag`; without one, access is free.
  unfoldable pub can_activate : Option String → Exec (Flags Db Ca) Bool
  unfolding admit
  can_activate none = pure true
  can_activate (some key) =
      if truthy key then (do enabled ← is_enabled T C key; admit key enabled) else pure true

  -- With a coherent cache, a request passes a route guarded by a non-empty key only
  -- if the flag is on in the database.
  pub can_activate-enabled :
      (w w' : Flags Db Ca) (key : String)
      → Coherent T C w
      → truthy key ≡ true
      → can_activate (some key) w ≡ (ok true, w')
      → enabled_in T C w key ≡ true
  unfolding can_activate
  can_activate-enabled w w' key v named e = ground (arith, is_enabled-Coherent T C w w' key true v)
