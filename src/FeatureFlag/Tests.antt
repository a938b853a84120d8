-- ===== src/FeatureFlag/Tests.antt =====
-- The service and the guard at concrete stores.
use backend_boilerplate.Base.{
  ◌≡◌, refl, Bool, true, false, none, some, List, [], ◌∷◌, String, ok, throw, http, error,
}
use backend_boilerplate.Store.Assoc.{assoc_table, assoc_cache, assoc_steps}
use backend_boilerplate.FeatureFlag.Ports.{FeatureFlag, Flags, to_cache_key, CreateFeatureFlagInput}
use backend_boilerplate.FeatureFlag.{is_enabled, enable, disable, toggle, create_flag, delete_flag}
use backend_boilerplate.FeatureFlag.Guard.{can_activate}
use backend_boilerplate.FeatureFlag.Coherence.{Coherent, enabled_in, is_enabled-Coherent}
use backend_boilerplate.FeatureFlag.Refinement.{
  perform, Call, ask, flip_over, promised_all, perform_all, perform_all-refines,
}
use backend_boilerplate.Base.{Option}
use backend_boilerplate.Base.{Result, length, ap, arith}
use backend_boilerplate.Users.{User, admin, user}
use backend_boilerplate.Guards.{HttpRequest, admitted}
use backend_boilerplate.FeatureFlag.Routes.{
  patch_enable, get_status, message, status, flag_route, handle, serve_flag, serve_flag-admin,
}

abbrev beta : Bool → FeatureFlag
beta b = record { key = "beta"; name = "Beta"; description = none; enabled = b }

-- One flag, off, and nothing cached.
abbrev Here : Type 0
Here = Flags (List (String × FeatureFlag)) (List (String × Bool))

abbrev cold : Here
cold = record { db = ("beta", beta false) ∷ []; cache = [] }

abbrev warm : Bool → Here
warm b = record { db = ("beta", beta b) ∷ []; cache = ("feature:beta", b) ∷ [] }

cold-Coherent : Coherent assoc_table assoc_cache cold
unfolding assoc_steps
cold-Coherent j = tt

run : Unit {0}
unfolding is_enabled enable disable toggle create_flag delete_flag can_activate assoc_steps
    to_cache_key
run = tt

flag_tests :
    (is_enabled assoc_table assoc_cache "beta" cold ≡ (ok false, warm false))
    × ((enable assoc_table assoc_cache "beta" (warm false)).0 ≡ ok tt)
    × ((toggle assoc_table assoc_cache "none" cold).0
        ≡ throw (error "Feature flag not found: none"))
    × ((disable assoc_table assoc_cache "none" cold).0 ≡ throw (error "P2025"))
    × ((can_activate assoc_table assoc_cache (some "beta") cold).0
        ≡ throw (http 403 "Feature 'beta' is not enabled"))
unfolding run
flag_tests = (refl, refl, refl, refl, refl)

is_enabled-Coherent_example :
    (false ≡ enabled_in assoc_table assoc_cache cold "beta")
    × ((warm false).db ≡ cold.db)
    × Coherent assoc_table assoc_cache (warm false)
unfolding run
is_enabled-Coherent_example =
    is_enabled-Coherent assoc_table assoc_cache cold (warm false) "beta" false cold-Coherent refl

abbrev enabled_beta : Here
enabled_beta = record { db = ("beta", beta true) ∷ ("beta", beta false) ∷ []; cache = [] }

-- The absence of "new" is cached, and then the flag is created enabled.
abbrev absent : Here
absent = record { db = []; cache = ("feature:new", false) ∷ [] }

abbrev new_flag : CreateFeatureFlagInput
new_flag = record { key = "new"; name = "New"; description = none; enabled = true }

abbrev new_row : FeatureFlag
new_row = record { key = "new"; name = "New"; description = none; enabled = true }

warm-Coherent : Coherent assoc_table assoc_cache (warm true)
unfolding run
warm-Coherent =
    (is_enabled-Coherent assoc_table assoc_cache
      (record { db = ("beta", beta true) ∷ []; cache = [] }) (warm true) "beta" true (λ j. tt)
      refl).2

-- A lookup, a toggle and a lookup.
abbrev calls : List Call
calls = ask "beta" ∷ flip_over "beta" ∷ ask "beta" ∷ []

abbrev answers : List (Option Bool)
answers = some false ∷ some true ∷ some true ∷ []

abbrev flipped : Here
flipped = record enabled_beta { cache = ("feature:beta", true) ∷ [] }

perform_all-refines_example :
    Coherent assoc_table assoc_cache flipped
    × ((answers, enabled_in assoc_table assoc_cache flipped)
        ≡ promised_all calls (enabled_in assoc_table assoc_cache cold))
unfolding run perform_all perform
perform_all-refines_example =
    perform_all-refines assoc_table assoc_cache calls cold flipped answers cold-Coherent refl

-- Through the guards.
abbrev root : User
root = record {
  id = "u0";
  email = "root@x.org";
  password = "h";
  first_name = none;
  last_name = none;
  phone = none;
  role = admin;
  is_active = true;
  created_at = 0;
  updated_at = 0;
}

abbrev patch : HttpRequest
patch = record { method = "PATCH"; path = some "/api/v1/feature-flags/beta/enable"; url = none }

abbrev no_listing : List (String × FeatureFlag) → Result (List FeatureFlag)
no_listing db = throw (error "down")

route_tests :
    ((serve_flag assoc_table assoc_cache no_listing patch
        (ok (record root { role = user }))
        (patch_enable "beta")
        cold)
      ≡ (throw (http 403 "Forbidden resource"), cold))
    × ((serve_flag assoc_table assoc_cache no_listing patch (ok root) (patch_enable "beta") cold).0
        ≡ ok (message "Feature 'beta' enabled"))
    × ((serve_flag assoc_table assoc_cache no_listing patch
          (ok (record root { role = user }))
          (get_status "beta")
          cold).0
        ≡ ok (status "beta" false))
unfolding run serve_flag handle admitted flag_route
route_tests = (refl, refl, refl)

serve_flag-admin_example :
    (u : User) × ((◌≡◌ {A = Result User} (ok root) (ok u)) × (u.role ≡ admin))
unfolding run serve_flag handle admitted flag_route
serve_flag-admin_example =
    serve_flag-admin assoc_table assoc_cache no_listing patch (ok root) (patch_enable "beta") cold
      (λ e. omega (arith, ap length e))
