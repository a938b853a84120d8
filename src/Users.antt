-- ===== src/Users.antt =====
-- The user table: prisma/schema.prisma's `User`, as src/domains/*/infrastructure/*.repository.ts
-- reach it through the Prisma client. The client is not implemented in the repository: it is an
-- interface with the laws of its two unique columns.
pub mod Sample
use backend_boilerplate.Base.{
  truthy, ℕ, ◌≡◌, ◌≢◌, Bool, Option, none, some, String, ◌==◌, if◌then◌else◌, Result, Ensures,
}

pub data Role : Type 0 where
  admin user moderator : Role

pub record User : Type 0 where
  pub id : String
  pub email : String
  pub password : String
  pub first_name : Option String
  pub last_name : Option String
  pub phone : Option String
  pub role : Role
  pub is_active : Bool
  pub created_at : ℕ
  pub updated_at : ℕ

-- `data` of `user.create`: the schema gives the rest.
pub record UserCreateInput : Type 0 where
  pub email : String
  pub password : String
  pub first_name : Option String
  pub last_name : Option String
  pub phone : Option String
  pub role : Option Role

-- `data` of `user.update`: `none` is `undefined`, which leaves a column as it is, and `some none` is
-- `null`.
pub record UserUpdateInput : Type 0 where
  pub first_name : Option (Option String)
  pub last_name : Option (Option String)
  pub phone : Option String
  pub role : Option (Option Role)
  pub is_active : Option (Option Bool)

abbrev pub or_else {ℓ} : {A : Type ℓ} → Option A → A → A
or_else none a = a
or_else (some b) a = b

abbrev pub or_old {ℓ} : {A : Type ℓ} → Option A → Option A → Option A
or_old none a = a
or_old (some b) a = some b

-- A value that is neither `undefined` nor `null`.
abbrev pub value_given {ℓ} : {A : Type ℓ} → Option (Option A) → Option A
value_given none = none
value_given (some o) = o

-- A row as `create` fills it in, with the columns that the database chooses.
abbrev pub new_user : UserCreateInput → String → ℕ → User
new_user i id now = record {
  id = id;
  email = i.email;
  password = i.password;
  first_name = i.first_name;
  last_name = i.last_name;
  phone = i.phone;
  role = or_else i.role Role.user;
  is_active = Bool.true;
  created_at = now;
  updated_at = now;
}

abbrev pub updated_user : UserUpdateInput → ℕ → User → User
updated_user i now u = record u {
  first_name = or_else i.first_name u.first_name;
  last_name = or_else i.last_name u.last_name;
  phone = or_old i.phone u.phone;
  role = or_else (value_given i.role) u.role;
  is_active = or_else (value_given i.is_active) u.is_active;
  updated_at = now;
}

-- `by_id` and `by_email` are the table's content, which only the laws name.
pub record UserTable (S : Type 0) : Type 0 where
  pub by_id : S → String → Option User
  pub by_email : S → String → Option User
  pub find_by_id : S → String → Result (Option User)
  pub find_by_email : S → String → Result (Option User)
  pub create : S → UserCreateInput → ℕ → Result (User × S)
  pub update : S → String → UserUpdateInput → ℕ → Result (User × S)
  pub delete : S → String → Result S
  pub find_by_id_lem : (s : S) (k : String) → Ensures (λ o. o ≡ by_id s k) (find_by_id s k)
  pub find_by_email_lem : (s : S) (k : String) → Ensures (λ o. o ≡ by_email s k) (find_by_email s k)
  pub by_id_key : (s : S) (k : String) (u : User) → by_id s k ≡ some u → u.id ≡ k
  pub by_email_key : (s : S) (k : String) (u : User) → by_email s k ≡ some u → u.email ≡ k
  -- the row is new, under an id that was free
  pub create_row :
      (s : S) (i : UserCreateInput) (now : ℕ)
      → Ensures (λ r. (r.0 ≡ new_user i (r.0).id now) × (by_id s (r.0).id ≡ none)) (create s i now)
  -- P2002 on the email column
  pub create_unique :
      (s : S) (i : UserCreateInput) (now : ℕ)
      → Ensures (λ _. by_email s i.email ≡ none) (create s i now)
  pub create_by_id :
      (s : S) (i : UserCreateInput) (now : ℕ) (j : String)
      → Ensures
          (λ r. by_id r.1 j ≡ (if (r.0).id == j then some r.0 else by_id s j))
          (create s i now)
  pub create_by_email :
      (s : S) (i : UserCreateInput) (now : ℕ) (j : String)
      → Ensures
          (λ r. by_email r.1 j ≡ (if i.email == j then some r.0 else by_email s j))
          (create s i now)
  -- P2025: the row to change must be there
  pub update_row :
      (s : S) (k : String) (i : UserUpdateInput) (now : ℕ)
      → Ensures
          (λ r. (u : User) × (by_id s k ≡ some u) × (r.0 ≡ updated_user i now u))
          (update s k i now)
  -- a column that may not be null
  pub update_null :
      (s : S) (k : String) (i : UserUpdateInput) (now : ℕ)
      → Ensures (λ _. (i.role ≢ some none) × (i.is_active ≢ some none)) (update s k i now)
  pub update_by_id :
      (s : S) (k : String) (i : UserUpdateInput) (now : ℕ) (j : String)
      → Ensures (λ r. by_id r.1 j ≡ (if k == j then some r.0 else by_id s j)) (update s k i now)
  pub delete_by_id :
      (s : S) (k j : String)
      → Ensures (λ t. by_id t j ≡ (if k == j then none else by_id s j)) (delete s k)

-- `argon2` (and its random salt): a hash verifies against the password that it is of.
pub record Argon2 : Type 0 where
  pub hash : String → Result String
  pub verify : String → String → Result Bool
  pub hash_verify :
      (password : String)
      → Ensures (λ h. Ensures (λ b. b ≡ Bool.true) (verify h password)) (hash password)

-- What the services use of `CryptoService`; `Crypto` fills it.
pub record PhoneCipher : Type 0 where
  pub encrypt : String → Result String
  pub decrypt : String → Result String
  pub decrypt-encrypt :
      (plaintext : String) → Ensures (λ c. decrypt c ≡ Result.ok plaintext) (encrypt plaintext)
  pub encrypt_truthy :
      (plaintext : String)
      → truthy plaintext ≡ Bool.true
      → Ensures (λ c. truthy c ≡ Bool.true) (encrypt plaintext)
