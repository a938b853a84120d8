-- ===== src/Seed/Tests.antt =====
-- Seeding an empty database, with one id for each new row: the second account is refused, so the
-- sample already holds the test user.
use backend_boilerplate.Base.{List, String, [], none, ok, refl, true, ◌∷◌, ◌≡◌}
use backend_boilerplate.Users.{User}
use backend_boilerplate.Users.Sample.{sample_users, clear_argon2, sample_steps}
use backend_boilerplate.Store.Assoc.{assoc_table, assoc_steps}
use backend_boilerplate.FeatureFlag.Ports.{FeatureFlag}
use backend_boilerplate.Seed.{Database, seed_account, seed_flag, seed_flags, main}
use backend_boilerplate.Seed.Planted.{Seeded, main-Seeded}
use backend_boilerplate.User.Sample.{ann}

abbrev tester : User
tester = record ann { id = "u2"; email = "user@example.com" }

abbrev old_flag : FeatureFlag
old_flag = record {
  key = "maintenance_mode";
  name = "Maintenance";
  description = none;
  enabled = true;
}

abbrev before : Database (List User) (List (String × FeatureFlag))
before = record { users = tester ∷ []; flags = ("maintenance_mode", old_flag) ∷ []; now = 5 }

run : Unit {0}
unfolding seed_account seed_flag seed_flags main sample_steps assoc_steps
run = tt

abbrev after : Database (List User) (List (String × FeatureFlag))
after = (main sample_users clear_argon2 assoc_table before).1

seeds : main sample_users clear_argon2 assoc_table before ≡ (ok tt, after)
unfolding run
seeds = refl

main-Seeded_example : Seeded sample_users clear_argon2 assoc_table before after
main-Seeded_example = main-Seeded sample_users clear_argon2 assoc_table before after seeds
