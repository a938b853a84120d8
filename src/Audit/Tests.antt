-- ===== src/Audit/Tests.antt =====
-- The interceptor at concrete requests; the log is a list of entries.
use backend_boilerplate.Base.{List, Result, [], false, none, ok, pure, refl, some, ◌++◌, ◌∷◌, ◌≡◌}
use backend_boilerplate.Json.{Json, str, obj, Fields, end, field}
use backend_boilerplate.Audit.{
  Request, Entry, codes, entry_of, intercept, extract_entity, sanitize_request_body, redacted,
}

abbrev body : Fields
body =
    field "email" (str "a@x.org")
      (field "password" (str "pw") (field "profile" (obj (field "token" (str "t") end)) end))

abbrev shown : Fields
shown =
    field "email" (str "a@x.org")
      (field "password" redacted (field "profile" (obj (field "token" (str "t") end)) end))

abbrev patch : Request
patch = record {
  method = "PATCH";
  url = codes "/v1/users/7";
  user = some "u0";
  body = some body;
  user_agent = none;
  ip = none;
}

abbrev append_log : List Entry → Entry → Result (List Entry)
append_log log e = ok (log ++ e ∷ [])

run : Unit {0}
unfolding intercept entry_of
run = tt

abbrev answer : Json
answer = obj (field "id" (str "u7") end)

audit_tests :
    (sanitize_request_body (some body) ≡ some shown)
    × (extract_entity (codes "/v1/users/7") ≡ codes "users")
    × (extract_entity (codes "/api/v1/users/7") ≡ codes "api")
    × ((entry_of patch "u0" (ok answer)).entity_id ≡ str "u7")
    × (intercept append_log false patch (pure answer) []
        ≡ (ok answer, entry_of patch "u0" (ok answer) ∷ []))
unfolding run
audit_tests = (refl, refl, refl, refl, refl)
