-- ===== src/Server/Start.antt =====
-- src/main.ts: what `bootstrap` sets up, in order, from the validated configuration. The page of the API
-- documentation and what is printed are left out.
use Prim.Native.Char.{Char, code}
use backend_boilerplate.Base.{
  Exception, sym, arith, ◌∙◌, ap, inl, false, refl, inr, Bool-cases, ◌++◌, ◌≡◌, All, ◌&&◌, Bool,
  List, Option, Result, String, [], error, if◌then◌else◌, nat_eq, none, not, ok, some, throw, true,
  ℕ, ◌∷◌,
}
use backend_boilerplate.Audit.{codes}
use backend_boilerplate.Env.{
  Value, text, num, undefined, setting, Zod, Environment, validate_env, string_or, or_text,
  parse_field,
}
use backend_boilerplate.Env.Validated.{validate_env-setting}

pub record Cors : Type 0 where
  pub origin : List String
  pub credentials : Bool
  pub methods : List String
  pub allowed_headers : List String
  pub exposed_headers : List String

-- The options of the validation pipe.
pub record ValidationOptions : Type 0 where
  pub whitelist : Bool
  pub forbid_non_whitelisted : Bool
  pub transform : Bool
  pub enable_implicit_conversion : Bool

pub data Port (Num : Type 0) : Type 0 where
  default_port : ℕ → Port Num
  configured : Value Num → Port Num

pub data Setup (Num : Type 0) : Type 0 where
  shutdown_hooks request_id_middleware idempotency_middleware pino_logger helmet : Setup Num
  cors : Cors → Setup Num
  uri_versioning : Setup Num
  global_prefix : (prefix : String) → (exclude : List String) → Setup Num
  validation_pipe : ValidationOptions → Setup Num
  exception_filter transform_interceptor : Setup Num
  listen : Port Num → Setup Num

abbrev push : Char → List String → List String
push c [] = String.◌∷◌ c String.[] ∷ []
push c (p ∷ ps) = String.◌∷◌ c p ∷ ps

-- `split(',')`
unfoldable pub split_comma : String → List String
split_comma String.[] = "" ∷ []
split_comma (String.◌∷◌ c s) =
    let rest = split_comma s in if nat_eq (code c) b',' then "" ∷ rest else push c rest

-- `configService.get('CORS_ORIGIN', 'http://localhost:3000')`, a text in every validated configuration.
abbrev pub origin_setting : {Num : Type 0} → Option (Value Num) → Result String
origin_setting none = ok "http://localhost:3000"
origin_setting (some undefined) = ok "http://localhost:3000"
origin_setting (some (text s)) = ok s
origin_setting (some (num n)) = throw (error "configService.get(...).split is not a function")

abbrev pub port_setting : {Num : Type 0} → Option (Value Num) → Port Num
port_setting none = default_port 3000
port_setting (some undefined) = default_port 3000
port_setting (some v) = configured v

abbrev pub cors_of : List String → Cors
cors_of origin = record {
  origin = origin;
  credentials = true;
  methods = "GET" ∷ "POST" ∷ "PUT" ∷ "PATCH" ∷ "DELETE" ∷ "OPTIONS" ∷ [];
  allowed_headers = "Content-Type" ∷ "Authorization" ∷ "X-Request-ID" ∷ "Idempotency-Key" ∷ [];
  exposed_headers = "X-Request-ID" ∷ [];
}

abbrev pub steps : {Num : Type 0} → Port Num → List String → List (Setup Num)
steps port origin =
    shutdown_hooks
    ∷ request_id_middleware
    ∷ idempotency_middleware
    ∷ pino_logger
    ∷ helmet
    ∷ cors (cors_of origin)
    ∷ uri_versioning
    ∷ global_prefix "api" (
        "metrics" ∷ "metrics/*path" ∷ "admin/queues" ∷ "admin/queues/*path" ∷ "health"
        ∷ "health/*path" ∷ [])
    ∷ validation_pipe (record {
      whitelist = true;
      forbid_non_whitelisted = true;
      transform = true;
      enable_implicit_conversion = true;
    })
    ∷ exception_filter
    ∷ transform_interceptor
    ∷ listen port
    ∷ []

abbrev on_ok : {A B : Type 0} → Result A → (A → Result B) → Result B
on_ok (ok a) f = f a
on_ok (throw e) f = throw e

-- `created` is the outcome of `NestFactory.create`, which connects to the database, and `listening`
-- that of `listen` at a port. What is set up so far is lost where one of them throws.
pub bootstrap :
    {Num : Type 0}
    → (created : Result (Unit {0})) → (listening : Port Num → Result (Unit {0}))
    → List (String × Value Num)
    → Result (List (Setup Num))
unfolding split_comma
bootstrap created listening config = on_ok created (λ _.
    on_ok (origin_setting (setting config "CORS_ORIGIN")) (λ s.
      on_ok (listening (port_setting (setting config "PORT")))
        (λ _. ok (steps (port_setting (setting config "PORT")) (split_comma s)))))

-- `join(',')`, by code points.
abbrev pub joined : List String → List ℕ
joined [] = []
joined (s ∷ []) = codes s
joined (s ∷ t ∷ ts) = codes s ++ (b',' ∷ joined (t ∷ ts))

-- Whether a text has no comma.
abbrev pub lacks_comma : String → Bool
lacks_comma String.[] = true
lacks_comma (String.◌∷◌ c s) = not (nat_eq (code c) b',') && lacks_comma s

-- What splitting makes of a text: a first part, and the others.
abbrev Parts : String → List String → Type 0
Parts s [] = ⊥
Parts s (p ∷ ps) = (joined (p ∷ ps) ≡ codes s) × All (λ q. lacks_comma q ≡ true) (p ∷ ps)

cut : (s : String) (ps : List String) → Parts s ps → joined ("" ∷ ps) ≡ b',' ∷ codes s
cut s [] h = absurd h
cut s (p ∷ ps) (j, _) = rw j refl

cut_lacks : (s : String) (ps : List String) → Parts s ps → All (λ q. lacks_comma q ≡ true) ("" ∷ ps)
cut_lacks s [] h = absurd h
cut_lacks s (p ∷ ps) (_, l) = (refl, l)

pushed :
    (c : Char) (s : String) (ps : List String)
    → nat_eq (code c) b',' ≡ false
    → Parts s ps
    → Parts (String.◌∷◌ c s) (push c ps)
pushed c s [] other h = absurd h
pushed c s (p ∷ []) other (j, (l, ls)) = (ap (◌∷◌ (code c)) j, (rw other l, ls))
pushed c s (p ∷ q ∷ ps) other (j, (l, ls)) = (ap (◌∷◌ (code c)) j, (rw other l, ls))

split_comma-Parts : (s : String) → Parts s (split_comma s)
unfolding split_comma
split_comma-Parts String.[] = (refl, (refl, tt))
split_comma-Parts (String.◌∷◌ c s) = elim (Bool-cases (nat_eq (code c) b',')) [
  | inr other ↦ rw other (pushed c s (split_comma s) other (split_comma-Parts s))
  | inl comma ↦ rw comma (
    cut s (split_comma s) (split_comma-Parts s) ∙ ground (arith, comma),
    cut_lacks s (split_comma s) (split_comma-Parts s),
  )
]

split_comma-joined :
    (s : String)
    → (joined (split_comma s) ≡ codes s) × All (λ q. lacks_comma q ≡ true) (split_comma s)
split_comma-joined s = parts s (split_comma s) (split_comma-Parts s)
  where
    parts :
        (t : String) (ps : List String)
        → Parts t ps
        → (joined ps ≡ codes t) × All (λ q. lacks_comma q ≡ true) ps
    parts t [] h = absurd h
    parts t (p ∷ ps) h = h

module _ {Num : Type 0} (Z : Zod Num) where
  -- What a start under a configuration leads to, by its two outcomes.
  abbrev pub Started :
      Result (Unit {0})
      → (Port Num → Result (Unit {0}))
      → List (String × Value Num)
      → List String
      → Type 0
  Started created listening c origin =
      ((x : Exception) → created ≡ throw x → bootstrap created listening c ≡ throw x)
      × ((x : Exception)
          → created ≡ ok tt
          → listening (port_setting (setting c "PORT")) ≡ throw x
          → bootstrap created listening c ≡ throw x)
      × (created ≡ ok tt
          → listening (port_setting (setting c "PORT")) ≡ ok tt
          → bootstrap created listening c ≡ ok (steps (port_setting (setting c "PORT")) origin))

  -- Under every environment that passes the validation, the server fails to start only with what the
  -- creation of the application throws, or else with what listening at the configured port throws.
  -- It takes for origins the parts of CORS_ORIGIN between the commas: none of them has a comma, and
  -- joined by commas they are the setting.
  pub bootstrap-validate_env :
      (env : Environment) (c : List (String × Value Num)) (created : Result (Unit {0}))
      (listening : Port Num → Result (Unit {0}))
      → validate_env Z env ≡ ok c
      → (s : String) × (origin : List String) × ((setting c "CORS_ORIGIN" ≡ some (text s))
          × Started created listening c origin
          × (joined origin ≡ codes s)
          × All (λ q. lacks_comma q ≡ true) origin)
  unfolding bootstrap setting parse_field
  bootstrap-validate_env env c created listening valid =
      let (v, held, parsed) =
        validate_env-setting Z env c "CORS_ORIGIN" (string_or "http://localhost:3000") valid refl in
      let s : String = or_text "http://localhost:3000" (env "CORS_ORIGIN") in
      let shape : setting c "CORS_ORIGIN" ≡ some (text s) = held ∙ sym parsed in
      (
        s,
        split_comma s,
        (
          shape,
          (
            (λ x failed. rw failed refl),
            (λ x fine failed. rw (fine, shape, failed) refl),
            (λ fine heard. rw (fine, shape, heard) refl),
          ),
          (split_comma-joined s).0,
          (split_comma-joined s).1,
        ),
      )
