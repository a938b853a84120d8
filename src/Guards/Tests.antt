-- ===== src/Guards/Tests.antt =====
-- The guards at concrete requests.
use backend_boilerplate.Base.{
  String, List, Result, [], false, http, none, ok, refl, some, throw, true, ◌∷◌, ◌≡◌,
}
use backend_boilerplate.Users.{User, admin, user}
use backend_boilerplate.Guards.{HttpRequest, Route, Listed, admitted}
use backend_boilerplate.Users.Sample.{sample_steps, with_id}
use backend_boilerplate.Auth.{validate_user}
use backend_boilerplate.Auth.Types.{JwtPayload, RefreshToken, World}
use backend_boilerplate.Auth.Sample.{services}
use backend_boilerplate.Auth.Strategy.{authenticate, validate}
use backend_boilerplate.Guards.Session.{admitted-stored}

abbrev get_users : HttpRequest
get_users = record { method = "GET"; path = some "/api/v1/users"; url = none }

abbrev admins_only : Route
admins_only = record { is_public = false; roles = some (admin ∷ []) }

abbrev members : Route
members = record { is_public = false; roles = none }

abbrev root : User
root = record {
  id = "u0";
  email = "root@x.org";
  password = "h";
  first_name = none;
  last_name = none;
  phone = none;
  role = admin;
  is_active = true;
  created_at = 0;
  updated_at = 0;
}

guard_tests :
    (admitted get_users admins_only (ok root) ≡ ok (some root))
    × (admitted get_users admins_only (ok (record root { role = user }))
        ≡ throw (http 403 "Forbidden resource"))
    × (admitted
          (record get_users { path = some "/metrics" })
          members
          (throw (http 401 "Unauthorized"))
        ≡ ok none)
    × (admitted get_users members (throw (http 401 "Unauthorized"))
        ≡ throw (http 401 "Unauthorized"))
unfolding admitted
guard_tests = (refl, refl, refl, refl)

-- A token of root's, whose role in the table is `admin`; the one in the token does not count.
abbrev root_payload : JwtPayload
root_payload = record { sub = "u0"; email = "root@x.org"; role = user }

abbrev everyone : World (List User) (List (String × RefreshToken))
everyone = record { users = root ∷ []; tokens = []; events = []; now = 0 }

admitted-stored_example :
    (u : User) × (p : JwtPayload) × (some root ≡ some u)
    × (◌≡◌ {A = Result JwtPayload} (ok root_payload) (ok p))
    × (with_id (root ∷ []) p.sub ≡ some u)
    × (u.is_active ≡ true)
    × Listed u.role (admin ∷ [])
unfolding admitted authenticate validate validate_user sample_steps
admitted-stored_example =
    admitted-stored services everyone get_users admins_only (ok root_payload) (admin ∷ [])
      (some root) refl refl
