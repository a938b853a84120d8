-- ===== src/Server.antt =====
-- src/main.ts and src/core/core.module.ts: a request from the middlewares through the guards, the
-- interceptors and the handler to the response, in the order in which Nest runs what they install.
-- The throttler, passport's strategy, the writing of an audit entry and the clock are parameters, and
-- so is what follows the interceptors: the validation pipe and the handler.
mod Answers
mod Start
mod Tests
use backend_boilerplate.Base.{
  Bool, Exec, Option, Result, String, if◌then◌else◌, none, not, ok, reads, some, throw, ℕ, ◌*◌,
  ◌>>=◌, ◌>>◌,
}
use backend_boilerplate.Json.{Json, null, str, Fields}
use backend_boilerplate.Users.{User}
use backend_boilerplate.Guards.{HttpRequest, Route, admitted}
use backend_boilerplate.Filter.{ErrorResponse, catch_exception, thrown}
use backend_boilerplate.Store.{Table}
use backend_boilerplate.Metrics.{Registry}
use backend_boilerplate.Metrics as Metrics
use backend_boilerplate.Audit as Audit
use backend_boilerplate.Transform as Transform
use backend_boilerplate.Idempotency as Idempotency

-- A request after the request id middleware.
pub record Incoming : Type 0 where
  pub http_request : HttpRequest
  pub request_id : String
  pub idempotency_key : Option String
  pub body : Option Fields
  pub user_agent : Option String
  pub ip : Option String

-- What is known of a route: its decorators, the status of its answers, its path as a label, and the
-- pipe and the handler with `request.user`. A handler may answer `undefined`.
pub record Endpoint (S : Type 0) : Type 0 where
  pub route : Route
  pub status_code : ℕ
  pub skip_audit : Bool
  pub path : String
  pub handler : Option User → Exec S (Option Json)

-- What is not the repository's: how it reads and changes the server's state.
pub record Host (S : Type 0) : Type 0 where
  pub throttle : HttpRequest → Exec S (Unit {0})
  pub strategy : HttpRequest → S → Result User
  pub create_log : S → Audit.Entry → Result S
  pub metrics : Registry S
  pub iso_time : ℕ → String

pub data Sent : Type 0 where
  sent : (status : ℕ) → Json → Sent
  failed : ErrorResponse → Sent

abbrev pub audit_request : Incoming → Option User → Audit.Request
audit_request r caller = record {
  method = (r.http_request).method;
  url = Audit.codes (elim (r.http_request).url [ none ↦ "" | some u ↦ u ]);
  user = elim caller [ none ↦ none | some u ↦ some u.id ];
  body = r.body;
  user_agent = r.user_agent;
  ip = r.ip;
}

-- An answer that is `undefined` is sent as `null` is: without a body.
abbrev pub or_null : Option Json → Json
or_null none = null
or_null (some j) = j

module _ {S : Type 0} (H : Host S) where
  -- The throttler, then the two guards.
  unfoldable pub guarded : Incoming → Route → Exec S (Option User)
  guarded r route = do
    (H.throttle) r.http_request
    reads (λ s. admitted r.http_request route ((H.strategy) r.http_request s))

  unfoldable pub transformed : Incoming → Exec S (Option Json) → Exec S Json
  transformed r handler = do
    answer ← handler
    reads (λ s. ok (
        or_null (
          Transform.intercept r.http_request ((H.iso_time) ((H.metrics).now s))
            (some (str r.request_id)) answer)))

  -- The interceptors around the handler: metrics, audit, transform.
  unfoldable pub handled : Incoming → Endpoint S → Option User → Exec S Json
  unfolding transformed
  handled r e caller = Metrics.intercept H.metrics (r.http_request).method e.path e.status_code (
      Audit.intercept H.create_log e.skip_audit (audit_request r caller)
        (transformed r (e.handler caller)))

  abbrev pub answer_of : Incoming → ℕ → Result Json → Sent
  answer_of r status_code (ok j) = sent status_code j
  answer_of r status_code (throw x) = failed (catch_exception (thrown x) (some r.request_id))

  -- The exception filter is outermost.
  unfoldable pub respond : Incoming → Endpoint S → S → Sent × S
  unfolding guarded handled
  respond r e s =
      let result = (guarded r e.route >>= handled r e) s in
      (answer_of r e.status_code result.0, result.1)

-- `stringify` is `JSON.stringify`; Express sends a body as its text.
module _ {Db : Type 0} (T : Table Db Idempotency.IdempotencyKey) (H : Host (Idempotency.World Db))
    (parse_json : String → Option Idempotency.Body) (stringify : Json → String)
    (stringify_error : ErrorResponse → String) where
  abbrev pub response_of : Sent → Idempotency.Response
  response_of (sent status j) = record { status = status; body = Idempotency.text (stringify j) }
  response_of (failed e) = record { status = e.status; body = Idempotency.text (stringify_error e) }

  abbrev pub keyed_request : Incoming → Idempotency.Request
  keyed_request r = record {
    method = (r.http_request).method;
    idempotency_key = r.idempotency_key;
    x_request_id = some r.request_id;
  }

  abbrev pub responded :
      Incoming → Endpoint (Idempotency.World Db) → Exec (Idempotency.World Db) Idempotency.Response
  responded r e w = let (answer, after) = respond H r e w in (ok (response_of answer), after)

  -- From the idempotency middleware to the complete response.
  unfoldable pub serve :
      Incoming → Endpoint (Idempotency.World Db) → Exec (Idempotency.World Db) Idempotency.Response
  serve r e = Idempotency.serve T parse_json (keyed_request r) (responded r e)
