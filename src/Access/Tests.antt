-- ===== src/Access/Tests.antt =====
-- The routes at concrete requests and a small table of users.
use backend_boilerplate.Base.{
  Exec, raise, Ensures, ℕ, Result, List, String, [], error, http, none, ok, refl, some, throw, true,
  ◌∷◌, ◌≡◌,
}
use backend_boilerplate.Users.{User, Role, admin}
use backend_boilerplate.Users.Sample.{
  sample_users, clear_argon2, clear_cipher, sample_steps, with_id,
}
use backend_boilerplate.Events.{user_created, user_updated, Change}
use backend_boilerplate.Pagination.{Listing}
use backend_boilerplate.Guards.{HttpRequest, admitted}
use backend_boilerplate.User.{
  CreateUserDto, UpdateUserDto, World, Services, UserWhere, SortOrder, create, update,
  to_response_dto,
}
use backend_boilerplate.Auth.Types.{RefreshToken}
use backend_boilerplate.Auth.Types as Auth
use backend_boilerplate.Auth.Sample.{services as sample_services, ann}
use backend_boilerplate.Auth.{logout}
use backend_boilerplate.Store.Assoc.{assoc_steps}
use backend_boilerplate.Access.Sessions
use backend_boilerplate.AuditLogs.{AuditLogTable, AuditLogWithUser, find_all}
use backend_boilerplate.Access.Logs
use backend_boilerplate.Pagination.{Window, take, drop, page_meta}
use backend_boilerplate.Streaming.Numbers.{ℤ, parse_int}
use backend_boilerplate.Access.Endpoints.{auth_route, audit_route}
use backend_boilerplate.Access.{get_users, post_users, route_of, signup-role}
use backend_boilerplate.Base.{Option, ◌↔◌}
use backend_boilerplate.Access.Endpoints.{
  target_route, users, Allowed, administrators, admitted_iff,
}
use backend_boilerplate.Events.{user_deleted}
use backend_boilerplate.User.{remove, find_one}
use backend_boilerplate.Access.Handlers.{
  UserReply, no_content, profile, erase, serve_user, endpoint_of,
}

-- A listing that is never asked.
abbrev no_listing : Listing (List User) UserWhere (String × SortOrder) User
no_listing = record {
  matching = λ us w o k n. us;
  rank = λ o u. 0;
  untied_order = λ us w o k j n m h. refl;
  count = λ us w. throw (error "down");
  find_many = λ us w o k n. throw (error "down");
  count_lem = λ us w o k n. tt;
  find_many_lem = λ us w o k n. tt;
}

abbrev services : Services (List User)
services = record {
  users = sample_users;
  listing = no_listing;
  argon2 = clear_argon2;
  crypto = clear_cipher;
}

abbrev mallory : CreateUserDto
mallory = record {
  email = "m@x.org";
  password = "12345678";
  first_name = none;
  last_name = none;
  phone = none;
  role = some admin;
}

abbrev account : Role → User
account r = record {
  id = "u1";
  email = "m@x.org";
  password = "12345678";
  first_name = none;
  last_name = none;
  phone = none;
  role = r;
  is_active = true;
  created_at = 3;
  updated_at = 3;
}

abbrev empty : World (List User)
empty = record { users = []; events = []; now = 3 }

abbrev signed_up : World (List User)
signed_up = record {
  users = account admin ∷ [];
  events = user_created "u1" "m@x.org" admin ∷ [];
  now = 3;
}

abbrev member : World (List User)
member = record { users = account Role.user ∷ []; events = []; now = 3 }

abbrev promotion : UpdateUserDto
promotion = record {
  first_name = none;
  last_name = none;
  phone = none;
  role = some (some admin);
  is_active = none;
}

abbrev promoted : World (List User)
promoted = record {
  users = account admin ∷ account Role.user ∷ [];
  events = user_updated "u1" "m@x.org" (("role", Change.role admin) ∷ []) ∷ [];
  now = 3;
}

abbrev request : String → HttpRequest
request method = record { method = method; path = some "/api/v1/users/u1"; url = none }

run : Unit {0}
unfolding create update to_response_dto sample_steps
run = tt

signup-role_example :
    (admitted (request "POST") (route_of post_users) (throw (http 401 "Unauthorized")) ≡ ok none)
    × (admin ≡ admin)
    × ((u : User) × ((with_id (account admin ∷ []) "u1" ≡ some u) × (u.role ≡ admin)))
unfolding run
signup-role_example =
    signup-role services (request "POST") (throw (http 401 "Unauthorized")) empty signed_up mallory
      (account admin) admin refl refl

admitted_iff_example :
    ((o : Option User) × (admitted
          (request "GET")
          (target_route (users get_users))
          (ok (account Role.user))
        ≡ ok o))
    ↔ Allowed administrators (ok (account Role.user))
unfolding target_route
admitted_iff_example = admitted_iff (request "GET") refl (ok (account Role.user)) (users get_users)

abbrev outlived : World (List User)
outlived = record { users = []; events = user_deleted "u1" "m@x.org" ∷ []; now = 3 }

handler_tests :
    (serve_user services (request "DELETE") (ok (account admin)) (erase "u1") member
      ≡ (ok no_content, outlived))
    × (serve_user services (request "DELETE") (ok (account Role.user)) (erase "u1") member
        ≡ (throw (http 403 "Forbidden resource"), member))
    × (serve_user services (request "GET") (ok (account Role.user)) profile member
        ≡ (ok (UserReply.user (account Role.user)), member))
unfolding run serve_user admitted route_of endpoint_of remove find_one
handler_tests = (refl, refl, refl)

-- A user logs out with the token of another.
abbrev ann_row : RefreshToken
ann_row = record { token = "t1"; user_id = "u1"; expires_at = 9 }

abbrev bob_row : RefreshToken
bob_row = record { token = "t2"; user_id = "u2"; expires_at = 9 }

abbrev sessions : Auth.World (List User) (List (String × RefreshToken))
sessions = record {
  users = [];
  tokens = ("t1", ann_row) ∷ ("t2", bob_row) ∷ [];
  events = [];
  now = 3;
}

abbrev post_request : HttpRequest
post_request = record { method = "POST"; path = some "/api/v1/auth/logout"; url = none }

run_sessions : Unit {0}
unfolding Sessions.serve_auth Sessions.endpoint_of auth_route admitted logout assoc_steps
    sample_steps
run_sessions = tt

-- One log, and an administrator who asks for the first page.
abbrev log : AuditLogWithUser
log = record {
  id = "l1";
  user_id = none;
  action = "CREATE";
  entity = "users";
  entity_id = none;
  status = "success";
  created_at = 1;
  user = none;
}

abbrev window_of : Option ℕ → ℕ → Result (List AuditLogWithUser)
window_of none n = throw (error "Invalid value for skip argument")
window_of (some k) n = ok (take n (drop k (log ∷ [])))

abbrev window_lem : (k : Option ℕ) (n : ℕ) → Ensures (Window k n (log ∷ [])) (window_of k n)
window_lem none n = tt
window_lem (some k) n = refl

abbrev one_log : AuditLogTable (Unit {0})
one_log = record {
  listing = record {
    matching = λ s w o k n. log ∷ [];
    rank = λ o l. 0;
    untied_order = λ s w o k j n m h. refl;
    count = λ s w. ok 1;
    find_many = λ s w o k n. window_of k n;
    count_lem = λ s w o k n. refl;
    find_many_lem = λ s w o k n. window_lem k n;
  };
  find_unique = λ s id. ok none;
}

abbrev all_logs : Logs.AuditQuery
all_logs = record { page = none; limit = some "20"; user_id = none; action = none; entity = none }

abbrev root : User
root = record ann { role = admin }

abbrev negative : Logs.AuditQuery → (page limit : ℤ) → Exec (Unit {0}) Logs.AuditReply
negative query page limit = raise (error "Invalid value for skip argument")

run_logs : Unit {0}
unfolding Logs.serve_audit Logs.endpoint_of audit_route admitted parse_int find_all
    backend_boilerplate.Pagination.skip_of
run_logs = tt

serve_audit-page_example :
    ((u : User) × ((Result.ok root ≡ ok u) × (u.role ≡ admin)))
    × Logs.Page one_log (error "NaN") negative tt all_logs 0 (log ∷ []) (page_meta 1 20 1) 20
unfolding run_logs
serve_audit-page_example =
    Logs.serve_audit-page one_log (error "NaN") negative
      (record { method = "GET"; path = some "/api/v1/audit"; url = none }) (ok root) all_logs 0 20
      tt tt (log ∷ []) (page_meta 1 20 1) refl refl refl
