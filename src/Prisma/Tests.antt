-- ===== src/Prisma/Tests.antt =====
-- Cleaning a database of two models, with and without the service's own fields. The state is the list
-- of the models that have been emptied.
use backend_boilerplate.Base.{
  modify, Exec, List, Option, String, [], error, if◌then◌else◌, none, ok, refl, some, throw, ◌++◌,
  ◌==◌, ◌||◌, ◌∷◌, ◌≡◌,
}
use backend_boilerplate.Prisma.{PropertyKey, named, symbol, constructed, model_keys, clean_database}

abbrev emptied : String → Exec (List String) (Unit {0})
emptied model = modify (λ done. done ++ model ∷ [])

abbrev delete_many : String → Option (Exec (List String) (Unit {0}))
delete_many key = if key == "user" || key == "auditLog" then some (emptied key) else none

abbrev models : List PropertyKey
models = named "_engine" ∷ named "user" ∷ symbol ∷ named "$on" ∷ named "auditLog" ∷ []

run : Unit {0}
unfolding clean_database constructed model_keys
run = tt

prisma_tests :
    (clean_database delete_many none models [] ≡ (ok tt, "user" ∷ "auditLog" ∷ []))
    × (clean_database delete_many (some "production") models []
        ≡ (throw (error "Cannot clean database in production"), []))
    × (constructed (some "") ≡ throw (error "DATABASE_URL is not set"))
    × (constructed (some "postgresql://db") ≡ ok "postgresql://db")
unfolding run
prisma_tests = (refl, refl, refl, refl)
