-- ===== src/Seed.antt =====
-- prisma/seed.ts: the accounts and flags of a new database. What it prints is left out.
mod Planted
mod Tests
use backend_boilerplate.Base.{
  Exec, List, Option, Result, String, [], false, none, ok, pure, reads, some, throw, true, writes,
  ℕ, ◌*◌, ◌>>=◌, ◌>>◌, ◌∷◌,
}
use backend_boilerplate.Users.{Role, User, UserCreateInput, UserTable, Argon2}
use backend_boilerplate.Store.{Table}
use backend_boilerplate.FeatureFlag.Ports.{FeatureFlag}

pub record Database (Us Db : Type 0) : Type 0 where
  pub users : Us
  pub flags : Db
  pub now : ℕ

-- What the two blocks of `main` differ in.
pub record Account : Type 0 where
  pub email : String
  pub password : String
  pub first_name : String
  pub role : Role

abbrev pub admin_account : Account
admin_account = record {
  email = "admin@example.com";
  password = "Admin123!";
  first_name = "Admin";
  role = Role.admin;
}

abbrev pub test_account : Account
test_account = record {
  email = "user@example.com";
  password = "User123!";
  first_name = "Test";
  role = Role.user;
}

abbrev pub feature_flags : List FeatureFlag
feature_flags =
    record {
      key = "enable_email_notifications";
      name = "Email Notifications";
      enabled = true;
      description = some "Enable email notifications for users";
    }
    ∷ record {
      key = "enable_websocket";
      name = "WebSocket Features";
      enabled = true;
      description = some "Enable WebSocket real-time features";
    }
    ∷ record {
      key = "enable_file_upload";
      name = "File Upload";
      enabled = true;
      description = some "Enable file upload functionality";
    }
    ∷ record {
      key = "maintenance_mode";
      name = "Maintenance Mode";
      enabled = false;
      description = some "Put application in maintenance mode";
    }
    ∷ []

-- The columns that a new account is given; `isActive: true` is what the schema gives too.
abbrev pub input_of : Account → String → UserCreateInput
input_of a hashed = record {
  email = a.email;
  password = hashed;
  first_name = some a.first_name;
  last_name = some "User";
  phone = none;
  role = some a.role;
}

module _ {Us Db : Type 0} (U : UserTable Us) (A : Argon2) (T : Table Db FeatureFlag) where
  abbrev with_users : Database Us Db → Result (User × Us) → Result (Database Us Db)
  with_users d (ok (u, us)) = ok (record d { users = us })
  with_users d (throw e) = throw e

  abbrev with_flags : Database Us Db → Result Db → Result (Database Us Db)
  with_flags d (ok t) = ok (record d { flags = t })
  with_flags d (throw e) = throw e

  create_account : Account → Option User → Exec (Database Us Db) (Unit {0})
  create_account a (some existing) = pure tt
  create_account a none = do
    hashed ← reads (λ _. A.hash a.password)
    writes (λ d. with_users d (U.create d.users (input_of a hashed) d.now))

  pub seed_account : Account → Exec (Database Us Db) (Unit {0})
  unfolding create_account
  seed_account a = do
    existing ← reads (λ d. U.find_by_email d.users a.email)
    create_account a existing

  create_flag : FeatureFlag → Option FeatureFlag → Exec (Database Us Db) (Unit {0})
  create_flag flag (some existing) = pure tt
  create_flag flag none = writes (λ d. with_flags d (T.create d.flags flag.key flag))

  pub seed_flag : FeatureFlag → Exec (Database Us Db) (Unit {0})
  unfolding create_flag
  seed_flag flag = do
    existing ← reads (λ d. T.find_unique d.flags flag.key)
    create_flag flag existing

  pub seed_flags : List FeatureFlag → Exec (Database Us Db) (Unit {0})
  seed_flags [] = pure tt
  seed_flags (flag ∷ flags) = do seed_flag flag; seed_flags flags

  pub main : Exec (Database Us Db) (Unit {0})
  main = do seed_account admin_account; seed_account test_account; seed_flags feature_flags
