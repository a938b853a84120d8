-- ===== src/Transform.antt =====
-- src/core/interceptors/transform.interceptor.ts: the envelope of an answer. A handler's result is
-- none where it returns `undefined`, and otherwise a JSON value, so that no property of it is
-- `undefined`. A handler that writes the response itself does not come here.
mod Tests
use Prim.Native.Char.{code}
use Prim.Native.String
use text.Mathlib.Text.{starts_with}
use backend_boilerplate.Base.{
  Bool-cases, inr, inl, ap, refl, Option-cases, Bool, Option, String, [], false, if◌then◌else◌,
  nat_eq, none, not, some, true, ◌&&◌, ◌*◌, ◌==◌, ◌||◌, ◌≡◌,
}
use backend_boilerplate.Json.{
  Json, bool, str, obj, null, num, arr, Fields, end, field, truthy_json, value_of,
}
use backend_boilerplate.Guards.{HttpRequest, request_path}

-- `split('?')[0]`
pub until_query : String → String
until_query String.[] = String.[]
until_query (String.◌∷◌ c s) =
    let rest = until_query s in if nat_eq (code c) b'?' then String.[] else String.◌∷◌ c rest

-- `/^\/(?:api\/)?metrics(?:\/.*)?$/`, of a path of one line.
pub is_metrics_path : String → Bool
is_metrics_path p =
    p == "/metrics"
    || (starts_with p "/metrics/" || (p == "/api/metrics" || starts_with p "/api/metrics/"))

abbrev optional_field : String → Option Json → Fields → Fields
optional_field k none fs = fs
optional_field k (some v) fs = field k v fs

-- `{ success: true, answer, timestamp, requestId }` as it is sent
abbrev pub enveloped : Option Json → String → Option Json → Json
enveloped answer now request_id = obj (
    field "success" (bool true) (
      optional_field "data" answer
        (field "timestamp" (str now) (optional_field "requestId" request_id end))))

abbrev given_value : Option Json → Bool
given_value none = false
given_value (some v) = true

abbrev has_success : Json → Bool
has_success (obj fs) = given_value (value_of "success" fs)
has_success _ = false

-- `now` is the printed time and `request_id` the header.
pub wrap : String → Option Json → Option Json → Json
wrap now request_id none = enveloped none now request_id
wrap now request_id (some answer) =
    if truthy_json answer && has_success answer
    then answer
    else enveloped (some answer) now request_id

unfoldable pub intercept :
    HttpRequest → (now : String) → (request_id : Option Json) → Option Json → Option Json
unfolding until_query is_metrics_path wrap
intercept request now request_id answer =
    if request.method == "GET" && is_metrics_path (until_query (request_path request))
    then answer
    else some (wrap now request_id answer)

-- An object with the key is sent as it is.
kept :
    (now : String) (request_id : Option Json) (fs : Fields) (v : Json)
    → value_of "success" fs ≡ some v
    → wrap now request_id (some (obj fs)) ≡ obj fs
unfolding wrap
kept now request_id fs v e = rw e refl

-- What `wrap` answers.
abbrev Wrapped : Json → Type 0
Wrapped j = (fs : Fields) × (v : Json) × ((j ≡ obj fs) × (value_of "success" fs ≡ some v))

fresh :
    (answer : Option Json) (now : String) (request_id : Option Json)
    → Wrapped (enveloped answer now request_id)
fresh answer now request_id = (_, bool true, (refl, refl))

wrap-Wrapped :
    (now : String) (request_id answer : Option Json) → Wrapped (wrap now request_id answer)
unfolding wrap
wrap-Wrapped now request_id none = fresh none now request_id
wrap-Wrapped now request_id (some (obj gs)) = elim (Option-cases (value_of "success" gs)) [
  | inl bare ↦ rw bare (fresh (some (obj gs)) now request_id)
  | inr (v, held) ↦ rw held (gs, v, (refl, held))
]
wrap-Wrapped now request_id (some null) = fresh (some null) now request_id
wrap-Wrapped now request_id (some (bool true)) = fresh (some (bool true)) now request_id
wrap-Wrapped now request_id (some (bool false)) = fresh (some (bool false)) now request_id
wrap-Wrapped now request_id (some (num n)) = elim (Bool-cases (truthy_json (num n))) [
  | inl given ↦ rw given (fresh (some (num n)) now request_id)
  | inr zero_given ↦ rw zero_given (fresh (some (num n)) now request_id)
]
wrap-Wrapped now request_id (some (str t)) = elim (Bool-cases (truthy_json (str t))) [
  | inl given ↦ rw given (fresh (some (str t)) now request_id)
  | inr empty ↦ rw empty (fresh (some (str t)) now request_id)
]
wrap-Wrapped now request_id (some (arr xs)) = fresh (some (arr xs)) now request_id

-- Apart from requests for the metrics, the interceptor makes of every JSON value that a handler
-- returns, and of `undefined`, an object with the key `success`; and such an object it does not put
-- into another envelope, at whatever time and under whatever id.
pub intercept-success :
    (request : HttpRequest) (now later : String) (request_id other answer : Option Json)
    → (request.method == "GET" && is_metrics_path (until_query (request_path request))) ≡ false
    → (fs : Fields) × (v : Json) × (intercept request now request_id answer ≡ some (obj fs))
      × (value_of "success" fs ≡ some v)
      × (intercept request later other (some (obj fs)) ≡ some (obj fs))
unfolding intercept
intercept-success request now later request_id other answer apart =
    let (fs, v, (shape, held)) = wrap-Wrapped now request_id answer in
    (fs, v, rw apart (ap some shape), held, rw apart (ap some (kept later other fs v held)))
