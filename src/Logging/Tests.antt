-- ===== src/Logging/Tests.antt =====
-- A login that fails, logged.
use backend_boilerplate.Base.{
  throw, ◌≡◌, throw, Exec, String, [], http, raise, refl, some, ℕ, ◌∷◌, ◌≡◌,
}
use backend_boilerplate.Json.{Json, str, obj, end, field}
use backend_boilerplate.Mask.{mask_object, mask_value, mask_text, is_sensitive_field}
use backend_boilerplate.Logging.{Request, request, failed, Logged, intercept}

-- Texts in lower case, and texts only as values.
abbrev lower : String → String
lower s = s

abbrev to_text : Json → String
to_text (str s) = s
to_text v = "[object Object]"

abbrev login : Request
login = record {
  request_id = some "r1";
  method = "POST";
  url = "/api/v1/auth/login?token=secret";
  body = obj (field "password" (str "secret12") end);
}

abbrev refuse : Exec ℕ String
refuse = raise (http 401 "Invalid credentials")

abbrev before : Logged ℕ
before = record { log = []; state = 7 }

run : Unit {0}
unfolding intercept mask_object mask_value mask_text is_sensitive_field
run = tt

logging_tests :
    (intercept lower to_text (λ s. s) login 200 refuse before).1.log
    ≡ request
        (some "r1")
        "POST"
        "/api/v1/auth/login?token=secret"
        (obj (field "password" (str "se***12") end))
      ∷ failed (some "r1") "POST" "/api/v1/auth/login?token=secret" "Invalid credentials" 7 7
      ∷ []
unfolding run
logging_tests = refl
