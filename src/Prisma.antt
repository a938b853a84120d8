-- ===== src/Prisma.antt =====
-- src/infra/prisma/prisma.service.ts. The client's own properties and what `deleteMany` of one does are
-- parameters.
mod Tests
use Prim.Native.Char.{code}
use Prim.Native.String
use backend_boilerplate.Base.{
  ==-refl, refl, eq_iff, Bool-cases, Option-cases, inr, arith, inl, Exception, ◌⊎◌, Bool, Exec,
  List, Option, Result, String, [], error, false, if◌then◌else◌, includes, map, nat_eq, none, not,
  ok, some, throw, true, truthy, ◌&&◌, ◌*◌, ◌==◌, ◌∷◌, ◌≡◌,
}

-- `constructor`: the URL that the pool gets.
pub constructed : Option String → Result String
constructed database_url = elim database_url [
  | none ↦ throw (error "DATABASE_URL is not set")
  | some url ↦ if truthy url then ok url else throw (error "DATABASE_URL is not set")
]

-- A key of `Reflect.ownKeys`.
pub data PropertyKey : Type 0 where
  named : String → PropertyKey
  symbol : PropertyKey

-- `key[0] !== '_' && key[0] !== '$'`
abbrev pub public_name : String → Bool
public_name String.[] = true
public_name (String.◌∷◌ c s) = not (nat_eq (code c) b'_') && not (nat_eq (code c) b'$')

pub model_keys : List PropertyKey → List String
model_keys [] = []
model_keys (symbol ∷ keys) = model_keys keys
model_keys (named key ∷ keys) =
    let rest = model_keys keys in if public_name key then key ∷ rest else rest

-- Whether a key is among the client's own.
pub data Own (key : String) : List PropertyKey → Type 0 where
  here : {keys : List PropertyKey} → Own key (named key ∷ keys)
  there : {k : PropertyKey} {keys : List PropertyKey} → Own key keys → Own key (k ∷ keys)

model_keys-Own :
    (key : String) (keys : List PropertyKey)
    → Own key keys
    → public_name key ≡ true
    → includes (model_keys keys) key ≡ true
unfolding model_keys
model_keys-Own key [] own wanted = elim own [ ]
model_keys-Own key (named _ ∷ keys) here wanted = rw wanted (ground (arith, ==-refl key))
model_keys-Own key (symbol ∷ keys) (there own) wanted = model_keys-Own key keys own wanted
model_keys-Own key (named k ∷ keys) (there own) wanted =
    let later = model_keys-Own key keys own wanted in
    elim (Bool-cases (public_name k)) [
      | inl kept ↦ rw kept (ground (arith, later))
      | inr left ↦ rw left later
    ]

module _ {S : Type 0} (delete_many : String → Option (Exec S (Unit {0}))) where
  abbrev with_deletion :
      Option (Exec S (Unit {0}))
      → Result (List (Exec S (Unit {0})))
      → Result (List (Exec S (Unit {0})))
  with_deletion none rest = throw (error "this[modelKey].deleteMany is not a function")
  with_deletion (some d) (ok ds) = ok (d ∷ ds)
  with_deletion (some d) (throw e) = throw e

  -- `models.map(…)`: the deletions, which Prisma starts when they are awaited, or the `TypeError` of
  -- the first property that has no `deleteMany`.
  pub deletions : List String → Result (List (Exec S (Unit {0})))
  deletions [] = ok []
  deletions (key ∷ keys) = with_deletion (delete_many key) (deletions keys)

  abbrev first_failure : Result (Unit {0}) → Result (Unit {0}) → Result (Unit {0})
  first_failure (throw e) r = throw e
  first_failure (ok _) r = r

  -- `Promise.all`: each runs, also after one that fails.
  pub all : List (Exec S (Unit {0})) → Exec S (Unit {0})
  all [] s = (ok tt, s)
  all (d ∷ ds) s = let rest = all ds (d s).1 in (first_failure (d s).0 rest.0, rest.1)

  unfoldable pub clean_database : (node_env : Option String) → List PropertyKey → Exec S (Unit {0})
  unfolding deletions all model_keys
  clean_database node_env own_keys s =
      if elim node_env [ none ↦ false | some e ↦ e == "production" ]
      then (throw (error "Cannot clean database in production"), s)
      else elim (deletions (model_keys own_keys)) [ ok ds ↦ all ds s | throw e ↦ (throw e, s) ]

  deletions-throw :
      (key : String) (keys : List String)
      → includes keys key ≡ true
      → delete_many key ≡ none
      → (x : Exception) × (deletions keys ≡ throw x)
  unfolding deletions
  deletions-throw key [] listed missing = absurd (ground arith)
  deletions-throw key (k ∷ keys) listed missing = elim (Option-cases (delete_many k)) [
    | inl bad ↦ (error "this[modelKey].deleteMany is not a function", rw bad refl)
    | inr (d, found) ↦
        let other : (k == key) ≡ false = ground (arith, eq_iff k key) in
        let (x, e) = deletions-throw key keys (ground arith) missing in (x, rw (found, e) refl)
  ]

  -- A cleaning in production throws, and so does one of a client that has an own property without a
  -- `deleteMany`, as the service's logger and pool are: nothing is deleted either way.
  pub clean_database-throws :
      (node_env : Option String) (own_keys : List PropertyKey) (s : S)
      → (node_env ≡ some "production")
        ⊎ ((key : String) × (Own key own_keys
              × (public_name key ≡ true)
              × (delete_many key ≡ none)))
      → (x : Exception) × (clean_database node_env own_keys s ≡ (throw x, s))
  unfolding clean_database
  clean_database-throws node_env own_keys s (inl production) =
      (error "Cannot clean database in production", rw production refl)
  clean_database-throws none own_keys s (inr (key, (own, wanted, missing))) =
      let (x, e) =
        deletions-throw key (model_keys own_keys) (model_keys-Own key own_keys own wanted)
          missing in
      (x, rw e refl)
  clean_database-throws (some env) own_keys s (inr (key, (own, wanted, missing))) =
      let (x, e) =
        deletions-throw key (model_keys own_keys) (model_keys-Own key own_keys own wanted)
          missing in
      elim (Bool-cases (env == "production")) [
        | inl production ↦ (error "Cannot clean database in production", rw production refl)
        | inr other ↦ (x, rw (other, e) refl)
      ]
