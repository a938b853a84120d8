-- ===== src/Accounts/Tests.antt =====
-- An account that is created and logs in a second and a half later.
use backend_boilerplate.Base.{List, String, [], none, ok, refl, some, true, ◌∷◌, ◌≡◌}
use backend_boilerplate.Store.Assoc.{assoc_steps}
use backend_boilerplate.Users.{User, Role}
use backend_boilerplate.Users.Sample.{sample_steps}
use backend_boilerplate.Events.{user_login, user_created}
use backend_boilerplate.User.{CreateUserDto, create}
use backend_boilerplate.User as U
use backend_boilerplate.User.Sample.{whole}
use backend_boilerplate.Auth.Types.{World, RefreshToken}
use backend_boilerplate.Auth.{login, generate_tokens, save_refresh_token, clear_phone}
use backend_boilerplate.Auth.Expiry.{expires_at, expires_match}
use backend_boilerplate.Auth.Sample.{services, ann, jwt_config, stamp}
use backend_boilerplate.Auth.Success.{Issued, answer_of}
use backend_boilerplate.Accounts.{login-create}

abbrev dto : CreateUserDto
dto = record {
  email = "a@x.org";
  password = "secret";
  first_name = some "Ann";
  last_name = none;
  phone = some "555";
  role = none;
}

abbrev nobody : U.World (List User)
nobody = record { users = []; events = []; now = 0 }

abbrev somebody : U.World (List User)
somebody = record { users = ann ∷ []; events = user_created "u1" "a@x.org" Role.user ∷ []; now = 0 }

abbrev at_login : World (List User) (List (String × RefreshToken))
at_login = record { users = ann ∷ []; tokens = []; events = []; now = 1500 }

run : Unit {0}
unfolding create U.to_response_dto U.find_by_email generate_tokens save_refresh_token clear_phone
    expires_at expires_match sample_steps assoc_steps stamp
run = tt

issued : Issued services at_login ann []
unfolding run
issued = record {
  config = jwt_config;
  access = "a10";
  refresh = "r10";
  expires = 604801500;
  after = ("r10", record { token = "r10"; user_id = "u1"; expires_at = 604801500 }) ∷ [];
  phone = some "555";
  configured = refl;
  access_signed = refl;
  refresh_signed = refl;
  parsed = refl;
  saved = refl;
  shown = refl;
}

login-create_example :
    (ann.id ≡ ann.id)
    × (login services (record { email = "a@x.org"; password = "secret" }) at_login ≡ (
      ok (answer_of services issued),
      record at_login { tokens = issued.after; events = user_login "u1" "a@x.org" ∷ [] },
    ))
unfolding run
login-create_example =
    login-create services whole nobody somebody dto ann ann at_login true issued refl refl refl refl
