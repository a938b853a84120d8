-- ===== src/Cache/Tests.antt =====
-- The service over an association list.
use backend_boilerplate.Base.{List, String, [], error, none, ok, refl, some, throw, ℕ, ◌∷◌, ◌≡◌}
use backend_boilerplate.Store.Assoc.{assoc_cache, assoc_steps, at}
use backend_boilerplate.Cache.{CacheManager, get, set, del, reset, on_module_destroy}

at_nothing : (k : String) → at {V = ℕ} [] k ≡ none
unfolding assoc_steps
at_nothing k = refl

abbrev manager : CacheManager (List (String × ℕ)) ℕ
manager = record {
  cache = assoc_cache;
  default_ttl = 300;
  clear = λ s. ok [];
  disconnect = λ s. throw (error "closed");
  clear_held = λ s k. at_nothing k;
}

abbrev held : List (String × ℕ)
held = ("a", 1) ∷ []

run : Unit {0}
unfolding get set del reset on_module_destroy assoc_steps
run = tt

cache_tests :
    ((get manager "a" (set manager "a" 2 none held).1).0 ≡ ok (some 2))
    × ((get manager "a" (del manager "a" held).1).0 ≡ ok none)
    × ((reset manager held).1 ≡ [])
    × (on_module_destroy manager held ≡ (ok tt, held))
unfolding run
cache_tests = (refl, refl, refl, refl)
