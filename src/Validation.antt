-- ===== src/Validation.antt =====
-- The decorators of the DTOs in src/domains/*/presentation/dto, and the global pipe of src/main.ts
-- that applies them. class-validator and class-transformer are not implemented in the repository:
-- the pipe is a parameter, with what the documentation says of the checks that it makes.
mod Typed
mod Queries
mod Sample
mod Tests
use backend_boilerplate.Base.{
  All, Bool, Ensures, List, Option, Result, String, [], any, false, includes, none, not, some,
  text_length, true, ℕ, ◌*◌, ◌==◌, ◌∷◌, ◌≡◌, ◌≤◌, ◌⊎◌,
}
use backend_boilerplate.Json.{Json, null, bool, num, str, Fields, value_of}

pub data Check : Type 0 where
  is_string is_email is_boolean is_int : Check
  min_length min max : ℕ → Check
  is_enum : List String → Check

-- A property of a class, with its checks and whether it has `@IsOptional()`.
pub record Property : Type 0 where
  pub name : String
  pub optional : Bool
  pub checks : List Check

-- The texts of the enum `Role`, as prisma/schema.prisma lists them.
abbrev pub role_values : List String
role_values = "ADMIN" ∷ "USER" ∷ "MODERATOR" ∷ []

abbrev required : String → List Check → Property
required key cs = record { name = key; optional = false; checks = cs }

abbrev given : String → List Check → Property
given key cs = record { name = key; optional = true; checks = cs }

abbrev login_dto : List Property
login_dto =
    required "email" (is_email ∷ []) ∷ required "password" (is_string ∷ min_length 8 ∷ []) ∷ []

abbrev refresh_token_dto : List Property
refresh_token_dto = required "refreshToken" (is_string ∷ []) ∷ []

abbrev create_user_dto : List Property
create_user_dto =
    required "email" (is_email ∷ [])
    ∷ required "password" (is_string ∷ min_length 8 ∷ [])
    ∷ given "firstName" (is_string ∷ [])
    ∷ given "lastName" (is_string ∷ [])
    ∷ given "phone" (is_string ∷ [])
    ∷ given "role" (is_enum role_values ∷ [])
    ∷ []

abbrev update_user_dto : List Property
update_user_dto =
    given "firstName" (is_string ∷ [])
    ∷ given "lastName" (is_string ∷ [])
    ∷ given "phone" (is_string ∷ [])
    ∷ given "role" (is_enum role_values ∷ [])
    ∷ given "isActive" (is_boolean ∷ [])
    ∷ []

unfoldable pub query_user_dto : List Property
query_user_dto =
    given "page" (is_int ∷ min 1 ∷ [])
    ∷ given "limit" (is_int ∷ min 1 ∷ max 100 ∷ [])
    ∷ given "search" (is_string ∷ [])
    ∷ given "role" (is_enum role_values ∷ [])
    ∷ given "sortOrder" (is_enum ("asc" ∷ "desc" ∷ []) ∷ [])
    ∷ given "sortBy" (is_string ∷ [])
    ∷ []

abbrev create_feature_flag_dto : List Property
create_feature_flag_dto =
    required "key" (is_string ∷ [])
    ∷ required "name" (is_string ∷ [])
    ∷ given "description" (is_string ∷ [])
    ∷ given "enabled" (is_boolean ∷ [])
    ∷ []

-- What a check that passes says of the value, as far as the code relies on it.
abbrev pub Passes : Check → Json → Type 0
Passes is_string v = (s : String) × (v ≡ str s)
Passes is_email v = (s : String) × (v ≡ str s)
Passes is_boolean v = (b : Bool) × (v ≡ bool b)
Passes is_int v = (n : ℕ) × (v ≡ num n)
Passes (min_length k) v = (s : String) × ((v ≡ str s) × (k ≤ text_length s))
Passes (min k) v = (n : ℕ) → v ≡ num n → k ≤ n
Passes (max k) v = (n : ℕ) → v ≡ num n → n ≤ k
Passes (is_enum ts) v = (s : String) × ((v ≡ str s) × (includes ts s ≡ true))

-- `@IsOptional()` leaves out the checks of a value that is `null` or `undefined`.
abbrev pub Accepted : Property → Option Json → Type 0
Accepted p none = p.optional ≡ true
Accepted p (some v) = ((p.optional ≡ true) × (v ≡ null)) ⊎ All (λ c. Passes c v) p.checks

-- `new ValidationPipe({ whitelist, forbidNonWhitelisted, transform })`: an object that comes through
-- has no property but those of the class, each has passed its checks, and none has become `null`.
pub record ValidationPipe : Type 0 where
  pub transform : List Property → Fields → Result Fields
  pub whitelist :
      (dto : List Property) (body : Fields) (key : String)
      → Ensures
          (λ out. (v : Json) → value_of key out ≡ some v → any (λ p. p.name == key) dto ≡ true)
          (transform dto body)
  pub checked :
      (dto : List Property) (body : Fields)
      → Ensures (λ out. All (λ p. Accepted p (value_of p.name out)) dto) (transform dto body)
  pub null_kept :
      (dto : List Property) (body : Fields) (key : String)
      → Ensures
          (λ out. value_of key out ≡ some null → value_of key body ≡ some null)
          (transform dto body)
