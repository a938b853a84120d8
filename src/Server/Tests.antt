-- ===== src/Server/Tests.antt =====
-- A request for a new account, and one of a stranger with the same key, at a server whose state is the
-- idempotency table.
use backend_boilerplate.Base.{
  ◌⊎◌, Result, Exception, All, Option, String, arith, List, [], false, http, if◌then◌else◌, none,
  ok, refl, some, suc, throw, true, ℕ, ◌∷◌, ◌≡◌,
}
use backend_boilerplate.Json.{Json, num, str}
use backend_boilerplate.Store.Beside.{beside}
use backend_boilerplate.Store.Assoc.{assoc_table, assoc_steps}
use backend_boilerplate.Guards.{Route}
use backend_boilerplate.Users.{User, admin}
use backend_boilerplate.Filter.{ErrorResponse, catch_exception, thrown}
use backend_boilerplate.Metrics.{Registry, Labels, same_labels}
use backend_boilerplate.Idempotency
use backend_boilerplate.Idempotency.Replay.{row_of}
use backend_boilerplate.Transform as Transform
use backend_boilerplate.Audit as Audit
use backend_boilerplate.Server.{User, Incoming, Endpoint, Host, failed, guarded, respond, serve}
use backend_boilerplate.Env.{text, setting}
use backend_boilerplate.Env.Sample.{zod, environment, validated, environment-validated}
use backend_boilerplate.Audit.{codes}
use backend_boilerplate.Server.Start.{
  Started, split_comma, joined, lacks_comma, bootstrap-validate_env,
}
use backend_boilerplate.Server.Answers.{
  respond-roles, respond-counted, serve-unguarded, sent_status,
}

-- A server that only counts: the labels of each count and of each observation.
pub record Counts : Type 0 where
  pub counts : List Labels
  pub observed : List Labels

count_in : List Labels → Labels → ℕ
count_in [] m = 0
count_in (l ∷ ls) m = let rest = count_in ls m in if same_labels l m then suc rest else rest

count_in-∷ :
    (l m : Labels) (ls : List Labels)
    → count_in (l ∷ ls) m ≡ (if same_labels l m then suc (count_in ls m) else count_in ls m)
unfolding count_in
count_in-∷ l m ls = refl

abbrev counting : Registry Counts
counting = record {
  count = λ s m. count_in s.counts m;
  observations = λ s m. count_in s.observed m;
  inc = λ l s. record s { counts = l ∷ s.counts };
  observe = λ l d s. record s { observed = l ∷ s.observed };
  now = λ s. 7;
  inc_count = λ l m s. count_in-∷ l m s.counts;
  inc_observations = λ l m s. refl;
  observe_count = λ l m d s. refl;
  observe_observations = λ l m d s. count_in-∷ l m s.observed;
}

abbrev counter : Host Counts
counter = record {
  throttle = λ r s. (ok tt, s);
  strategy = λ r s. throw (http 401 "Unauthorized");
  create_log = λ s e. ok s;
  metrics = counting;
  iso_time = λ n. "1970-01-01";
}

abbrev incoming : Incoming
incoming = record {
  http_request = record {
    method = "POST";
    path = some "/api/v1/users";
    url = some "/api/v1/users";
  };
  request_id = "r1";
  idempotency_key = some "k";
  body = none;
  user_agent = none;
  ip = none;
}

abbrev sign_up : {S : Type 0} → Endpoint S
sign_up = record {
  route = record { is_public = true; roles = none };
  status_code = 201;
  skip_audit = false;
  path = "/api/v1/users";
  handler = λ caller s. (ok (some (num 5)), s);
}

abbrev private_route : {S : Type 0} → Endpoint S
private_route = record {
  route = record { is_public = false; roles = some (admin ∷ []) };
  status_code = 200;
  skip_audit = false;
  path = "/api/v1/users";
  handler = λ caller s. (ok (some (num 6)), s);
}

abbrev nothing : Counts
nothing = record { counts = []; observed = [] }

abbrev failing : {S : Type 0} → Endpoint S
failing = record sign_up { handler = λ caller s. (throw (http 409 "in use"), s) }

run : Unit {0}
unfolding guarded respond serve assoc_steps backend_boilerplate.Guards.admitted Audit.intercept
    Transform.intercept backend_boilerplate.Metrics.intercept catch_exception count_in
run = tt

server_tests :
    ((respond counter incoming private_route nothing).0
      ≡ failed (catch_exception (thrown (http 401 "Unauthorized")) (some "r1")))
    × ((respond counter incoming failing nothing).1.counts
        ≡ record { method = "POST"; route = "/api/v1/users"; status = 409 } ∷ [])
    × (sent_status (respond counter incoming failing nothing).0 ≡ 409)
unfolding run
server_tests = (refl, refl, refl)

respond-counted_example :
    (count_in
        (respond counter incoming failing nothing).1.counts
        (record { method = "POST"; route = "/api/v1/users"; status = 409 })
      ≡ 1)
    × (count_in
          (respond counter incoming failing nothing).1.observed
          (record { method = "POST"; route = "/api/v1/users"; status = 409 })
        ≡ 1)
unfolding run
respond-counted_example =
    respond-counted counter incoming failing nothing nothing none
      (record { method = "POST"; route = "/api/v1/users"; status = 409 }) (refl, refl)
      (λ e. absurd (ground arith))

-- The server with the idempotency table.
abbrev Db : Type 0
Db = List (String × Idempotency.IdempotencyKey) × Counts

abbrev in_world : (Counts → Counts) → Idempotency.World Db → Idempotency.World Db
in_world f w = record w { db = (w.db.0, f w.db.1) }

abbrev keyed_counting : Registry (Idempotency.World Db)
keyed_counting = record {
  count = λ w m. count_in w.db.1.counts m;
  observations = λ w m. count_in w.db.1.observed m;
  inc = λ l. in_world (λ s. record s { counts = l ∷ s.counts });
  observe = λ l d. in_world (λ s. record s { observed = l ∷ s.observed });
  now = λ w. w.now;
  inc_count = λ l m w. count_in-∷ l m w.db.1.counts;
  inc_observations = λ l m w. refl;
  observe_count = λ l m d w. refl;
  observe_observations = λ l m d w. count_in-∷ l m w.db.1.observed;
}

abbrev keyed_server : Host (Idempotency.World Db)
keyed_server = record {
  throttle = λ r s. (ok tt, s);
  strategy = λ r s. throw (http 401 "Unauthorized");
  create_log = λ s e. ok s;
  metrics = keyed_counting;
  iso_time = λ n. "1970-01-01";
}

abbrev as_json : String → Option Idempotency.Body
as_json t = some (Idempotency.json t)

abbrev sample_text : Json → String
sample_text j = "{}"

abbrev error_text : ErrorResponse → String
error_text e = e.message

abbrev start : Idempotency.World Db
start = record { db = ([], nothing); now = 5 }

abbrev counted : Idempotency.World Db
counted = (respond keyed_server incoming sign_up start).1

abbrev stored : Db
stored = (
  ("k", row_of as_json "k" (record { status = 201; body = Idempotency.text "{}" }) counted.now)
      ∷ [],
  counted.db.1,
)

serve-unguarded_example :
    (serve (beside assoc_table) keyed_server as_json sample_text error_text incoming sign_up start
      ≡ (
        ok (record { status = 201; body = Idempotency.text "{}" }),
        record counted { db = stored },
      ))
    × (serve
          (beside assoc_table)
          keyed_server
          as_json
          sample_text
          error_text
          incoming
          private_route
          (record { db = stored; now = 9 })
        ≡ (
          ok (record { status = 201; body = Idempotency.json "{}" }),
          record { db = stored; now = 9 },
        ))
unfolding run
serve-unguarded_example =
    serve-unguarded (beside assoc_table) keyed_server as_json sample_text error_text incoming
      incoming sign_up private_route "k" start counted 201
      (Transform.enveloped (some (num 5)) "1970-01-01" (some (str "r1"))) stored 9
      (refl, refl, refl) (refl, refl, refl) refl refl (omega arith) (omega arith) refl refl
      (omega arith)

origins_test : split_comma "http://a.org,http://b.org" ≡ "http://a.org" ∷ "http://b.org" ∷ []
unfolding split_comma
origins_test = refl

bootstrap-validate_env_example :
    (s : String) × (origin : List String) × ((setting validated "CORS_ORIGIN" ≡ some (text s))
      × Started zod (ok tt) (λ port. ok tt) validated origin
      × (joined origin ≡ codes s)
      × All (λ q. lacks_comma q ≡ true) origin)
bootstrap-validate_env_example =
    bootstrap-validate_env zod environment validated (ok tt) (λ port. ok tt) environment-validated

respond-roles_example :
    (x : Exception) × ((◌≡◌ {A = Result User} (throw (http 401 "Unauthorized")) (throw x))
      ⊎ (x ≡ http 403 "Forbidden resource"))
    × (respond counter incoming private_route nothing
        ≡ (failed (catch_exception (thrown x) (some "r1")), nothing))
respond-roles_example =
    respond-roles counter incoming private_route nothing nothing (admin ∷ []) refl refl
      (λ u known. absurd (ground (arith, known)))
