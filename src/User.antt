-- ===== src/User.antt =====
-- src/domains/user: user.service.ts over user.repository.ts, each method an action over the table
-- of users and the events.
pub mod Account
pub mod Listed
mod Phone
pub mod Sample
mod Tests
use Prim.Native.String.{String}
use backend_boilerplate.Base.{
  ℕ, Bool, true, false, Option, none, some, List, [], ◌∷◌, ◌++◌, map, truthy, truthy?, http, Exec,
  pure, raise, reads, modify, ◌>>=◌, ◌>>◌, Result, ok, throw, if◌then◌else◌, Exception,
}
use backend_boilerplate.Users.{
  value_given, Role, User, UserCreateInput, UserUpdateInput, UserTable, Argon2, PhoneCipher,
}
use backend_boilerplate.Events.{Change, text, flag, Event, user_created, user_updated, user_deleted}
use backend_boilerplate.Pagination.{PaginationMeta, page_meta, skip_of, Listing}

pub record CreateUserDto : Type 0 where
  pub email : String
  pub password : String
  pub first_name : Option String
  pub last_name : Option String
  pub phone : Option String
  pub role : Option Role

-- `none` is `undefined`, and `some none` is `null`, which `@IsOptional()` lets through.
pub record UpdateUserDto : Type 0 where
  pub first_name : Option (Option String)
  pub last_name : Option (Option String)
  pub phone : Option (Option String)
  pub role : Option (Option Role)
  pub is_active : Option (Option Bool)

pub data SortOrder : Type 0 where
  asc desc : SortOrder

pub record QueryUserDto : Type 0 where
  pub page : Option ℕ
  pub limit : Option ℕ
  pub search : Option String
  pub role : Option Role
  pub sort_by : Option String
  pub sort_order : Option SortOrder

-- `Prisma.UserWhereInput` as the service builds it: a text that the address or a name contains,
-- without regard to case, and a role.
pub record UserWhere : Type 0 where
  pub any_contains : Option String
  pub role : Option Role

pub record World (Us : Type 0) : Type 0 where
  pub users : Us
  pub events : List Event
  pub now : ℕ

pub record Services (Us : Type 0) : Type 0 where
  pub users : UserTable Us
  pub listing : Listing Us UserWhere (String × SortOrder) User
  pub argon2 : Argon2
  pub crypto : PhoneCipher

abbrev pub conflict : Exception
conflict = http 409 "User with this email already exists"

abbrev pub not_found : Exception
not_found = http 404 "User not found"

abbrev pub or_default {ℓ} : {A : Type ℓ} → Option A → A → A
or_default none a = a
or_default (some b) a = b

-- A property of the object is there if it is not `undefined`.
abbrev entry {ℓ} : {A : Type ℓ} → (A → Change) → String → Option (Option A) → List (String × Change)
entry f key none = []
entry f key (some none) = (key, Change.null) ∷ []
entry f key (some (some v)) = (key, f v) ∷ []

-- The entries of the DTO that are not `undefined`.
pub changes : UpdateUserDto → List (String × Change)
changes dto =
    entry text "firstName" dto.first_name
    ++ (entry text "lastName" dto.last_name
        ++ (entry text "phone" dto.phone
            ++ (entry Change.role "role" dto.role ++ entry flag "isActive" dto.is_active)))

-- The filter of a listing.
pub where_of : QueryUserDto → UserWhere
where_of query = record {
  any_contains = if truthy? query.search then query.search else none;
  role = query.role;
}

abbrev some_text : Result String → Result (Option String)
some_text (ok t) = ok (some t)
some_text (throw e) = throw e

abbrev both : Result User → Result (List User) → Result (List User)
both (ok v) (ok vs) = ok (v ∷ vs)
both (ok v) (throw e) = throw e
both (throw e) _ = throw e

module _ {Us : Type 0} (S : Services Us) where
  abbrev pub emit : Event → Exec (World Us) (Unit {0})
  emit e = modify (λ w. record w { events = w.events ++ e ∷ [] })

  abbrev keep_users : Result (User × Us) → World Us → Result User × World Us
  keep_users (ok (u, us)) w = (ok u, record w { users = us })
  keep_users (throw e) w = (throw e, w)

  abbrev keep_deleted : Result Us → World Us → Result (Unit {0}) × World Us
  keep_deleted (ok us) w = (ok tt, record w { users = us })
  keep_deleted (throw e) w = (throw e, w)

  -- user.repository.ts
  abbrev pub repo_create : UserCreateInput → Exec (World Us) User
  repo_create i w = keep_users ((S.users).create w.users i w.now) w

  abbrev pub repo_update : String → UserUpdateInput → Exec (World Us) User
  repo_update id i w = keep_users ((S.users).update w.users id i w.now) w

  abbrev pub repo_delete : String → Exec (World Us) (Unit {0})
  repo_delete id w = keep_deleted ((S.users).delete w.users id) w

  abbrev pub find_by_id : String → Exec (World Us) (Option User)
  find_by_id id = reads (λ w. (S.users).find_by_id w.users id)

  unfoldable pub find_by_email : String → Exec (World Us) (Option User)
  find_by_email email = reads (λ w. (S.users).find_by_email w.users email)

  -- `phone ? this.crypto.encrypt(phone) : undefined`
  abbrev pub encrypted_phone : Option String → Result (Option String)
  encrypted_phone none = ok none
  encrypted_phone (some phone) =
      if truthy phone then some_text ((S.crypto).encrypt phone) else ok none

  abbrev pub clear_phone : Option String → Result (Option String)
  clear_phone none = ok none
  clear_phone (some phone) = if truthy phone then some_text ((S.crypto).decrypt phone) else ok none

  abbrev with_phone : User → Result (Option String) → Result User
  with_phone user (ok phone) = ok (record user { phone = phone })
  with_phone user (throw e) = throw e

  -- The row with the phone in clear.
  unfoldable pub to_response_dto : User → Result User
  to_response_dto user = with_phone user (clear_phone user.phone)

  create_absent : CreateUserDto → Option User → Exec (World Us) User
  create_absent dto (some existing) = raise conflict
  create_absent dto none = do
    hashed ← reads (λ _. (S.argon2).hash dto.password)
    phone ← reads (λ _. encrypted_phone dto.phone)
    user ← repo_create (record {
      email = dto.email;
      password = hashed;
      first_name = dto.first_name;
      last_name = dto.last_name;
      phone = phone;
      role = dto.role;
    })
    emit (user_created user.id user.email user.role)
    reads (λ _. to_response_dto user)

  unfoldable pub create : CreateUserDto → Exec (World Us) User
  unfolding create_absent find_by_email
  create dto = do existing ← find_by_email dto.email; create_absent dto existing

  abbrev found : Option User → Exec (World Us) User
  found none = raise not_found
  found (some user) = pure user

  unfoldable pub find_one : String → Exec (World Us) User
  find_one id = do
    user ← find_by_id id
    existing ← found user
    reads (λ _. to_response_dto existing)

  unfoldable pub update : String → UpdateUserDto → Exec (World Us) User
  unfolding changes
  update id dto = do
    existing ← find_by_id id
    found existing
    phone ← reads (λ _. encrypted_phone (value_given dto.phone))
    user ← repo_update id (record {
      first_name = dto.first_name;
      last_name = dto.last_name;
      phone = phone;
      role = dto.role;
      is_active = dto.is_active;
    })
    emit (user_updated user.id user.email (changes dto))
    reads (λ _. to_response_dto user)

  unfoldable pub remove : String → Exec (World Us) (Unit {0})
  remove id = do
    user ← find_by_id id
    existing ← found user
    repo_delete id
    emit (user_deleted existing.id existing.email)

  -- `users.map((user) => this.toResponseDto(user))`
  unfoldable pub to_response_dtos : List User → Result (List User)
  to_response_dtos [] = ok []
  to_response_dtos (u ∷ us) = both (to_response_dto u) (to_response_dtos us)

  unfoldable pub find_all : QueryUserDto → Exec (World Us) (List User × PaginationMeta)
  unfolding where_of to_response_dtos
  find_all query = do
    let page = or_default query.page 1
    let limit = or_default query.limit 10
    total ← reads (λ w. (S.listing).count w.users (where_of query))
    users ← reads (λ w.
        (S.listing).find_many w.users (where_of query)
          (or_default query.sort_by "createdAt", or_default query.sort_order desc)
          (skip_of page limit) limit)
    rows ← reads (λ _. to_response_dtos users)
    pure (rows, page_meta page limit total)
