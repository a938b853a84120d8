-- ===== src/Transform/Tests.antt =====
-- Answers in their envelope.
use backend_boilerplate.Base.{String, none, refl, some, ◌≡◌}
use backend_boilerplate.Json.{Json, str, obj, num, Fields, value_of}
use backend_boilerplate.Guards.{HttpRequest}
use backend_boilerplate.Transform.{
  intercept, enveloped, wrap, is_metrics_path, until_query, intercept-success,
}

abbrev get : String → HttpRequest
get path = record { method = "GET"; path = some path; url = none }

run : Unit {0}
unfolding intercept wrap is_metrics_path until_query
run = tt

transform_tests :
    (intercept (get "/api/metrics/x?y") "t" none (some (str "m")) ≡ some (str "m"))
    × (intercept (get "/api/v1/users") "t" none (some (num 0))
        ≡ some (enveloped (some (num 0)) "t" none))
    × (intercept (get "/metricsx") "t" none none ≡ some (enveloped none "t" none))
unfolding run
transform_tests = (refl, refl, refl)

intercept-success_example :
    (fs : Fields) × (v : Json) × (intercept (get "/api/v1/users") "t" none (some (num 7))
      ≡ some (obj fs))
    × (value_of "success" fs ≡ some v)
    × (intercept (get "/api/v1/users") "u" none (some (obj fs)) ≡ some (obj fs))
unfolding run
intercept-success_example =
    intercept-success (get "/api/v1/users") "t" "u" none none (some (num 7)) refl
