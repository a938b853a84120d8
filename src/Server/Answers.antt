-- ===== src/Server/Answers.antt =====
-- What a client is sent, and what a request leaves behind.
use backend_boilerplate.Base.{
  List, ◌⊎◌, ◌+◌, ◌<◌, ◌≤◌, none, subst, arith, String, inr, inl, Result-cases, refl, Exec,
  Exception, Option, Result, error, http, if◌then◌else◌, ok, some, suc, throw, ℕ, ◌≡◌, ◌≢◌,
}
use backend_boilerplate.Json.{Json}
use backend_boilerplate.Users.{User, Role}
use backend_boilerplate.Guards.{admitted, admitted-roles, admitted-throw, Listed}
use backend_boilerplate.Filter.{ErrorResponse, catch_exception, thrown}
use backend_boilerplate.Metrics.{labels_of, Labels, same_labels, status_of, intercept-Counted}
use backend_boilerplate.Metrics as Metrics
use backend_boilerplate.Audit as Audit
use backend_boilerplate.Audit.Trail.{intercept-answer}
use backend_boilerplate.Idempotency
use backend_boilerplate.Idempotency.Replay.{Keyed, row_of, serve-replay, serve-first}
use backend_boilerplate.Server.{
  response_of, serve, keyed_request, responded, answer_of, Incoming, Endpoint, Host, Sent, sent,
  failed, guarded, handled, transformed, respond, audit_request,
}
use backend_boilerplate.Store.{Table}

abbrev pub sent_status : Sent → ℕ
sent_status (sent status j) = status
sent_status (failed e) = e.status

-- No exception has the status 0.
abbrev pub Proper {ℓ} : {A : Type ℓ} → Result A → Type 0
Proper (ok a) = Unit {0}
Proper (throw (http status message)) = status ≢ 0
Proper (throw (error message)) = Unit {0}

module _ {S : Type 0} (H : Host S) where
  -- The throttler passes a request on, and the guards of its route, asked after it, give a result.
  abbrev pub Asked : Incoming → Endpoint S → S → S → Result (Option User) → Type 0
  Asked r e s s' result =
      ((H.throttle) r.http_request s ≡ (ok tt, s'))
      × (admitted r.http_request e.route ((H.strategy) r.http_request s') ≡ result)

  guarded-Asked :
      (r : Incoming) (e : Endpoint S) (s s' : S) (result : Result (Option User))
      → Asked r e s s' result
      → guarded H r e.route s ≡ (result, s')
  unfolding guarded
  guarded-Asked r e s s' result (passed, verdict) = rw (passed, verdict) refl

  guarded_throttled :
      (r : Incoming) (e : Endpoint S) (s s' : S) (x : Exception)
      → (H.throttle) r.http_request s ≡ (throw x, s')
      → guarded H r e.route s ≡ (throw x, s')
  unfolding guarded
  guarded_throttled r e s s' x refused = rw refused refl

  respond-throws :
      (r : Incoming) (e : Endpoint S) (s s' : S) (x : Exception)
      → guarded H r e.route s ≡ (throw x, s')
      → respond H r e s ≡ (failed (catch_exception (thrown x) (some r.request_id)), s')
  unfolding respond
  respond-throws r e s s' x refused = rw refused refl

  -- A request that the throttler refuses, or a guard after it, is answered by the filter with that
  -- exception. The handler does not run, and nothing is counted or audited: the state is as the
  -- throttler left it.
  pub respond-refused :
      (r : Incoming) (e : Endpoint S) (s s' : S) (x : Exception)
      → ((H.throttle) r.http_request s ≡ (throw x, s')) ⊎ Asked r e s s' (throw x)
      → respond H r e s ≡ (failed (catch_exception (thrown x) (some r.request_id)), s')
  respond-refused r e s s' x (inl refused) =
      respond-throws r e s s' x (guarded_throttled r e s s' x refused)
  respond-refused r e s s' x (inr asked) =
      respond-throws r e s s' x (guarded-Asked r e s s' (throw x) asked)

  -- On a route with required roles, a request that the throttler passes on, but that the strategy does
  -- not authenticate as a user with one of them, is answered by the filter with the strategy's own
  -- exception or with 403. The handler does not run, and the state is as the throttler left it.
  pub respond-roles :
      (r : Incoming) (e : Endpoint S) (s s' : S) (required : List Role)
      → (e.route).roles ≡ some required
      → (H.throttle) r.http_request s ≡ (ok tt, s')
      → ((u : User) → (H.strategy) r.http_request s' ≡ ok u → ¬ Listed u.role required)
      → (x : Exception) × (((H.strategy) r.http_request s' ≡ throw x)
          ⊎ (x ≡ http 403 "Forbidden resource"))
        × (respond H r e s ≡ (failed (catch_exception (thrown x) (some r.request_id)), s'))
  respond-roles r e s s' required listed passed stranger =
      elim (Result-cases (admitted r.http_request e.route ((H.strategy) r.http_request s'))) [
        | inl (o, entered) ↦
            let (u, (known, _, member, _)) =
              admitted-roles r.http_request e.route ((H.strategy) r.http_request s') required o
                listed entered in
            absurd (stranger u known member)
        | inr (x, refused) ↦ (
          x,
          admitted-throw r.http_request e.route ((H.strategy) r.http_request s') x refused,
          respond-refused r e s s' x (inr (passed, refused)),
        )
      ]

  abbrev pub after_audit : Incoming → Endpoint S → Option User → S → S
  after_audit r e caller s =
      (Audit.intercept H.create_log e.skip_audit (audit_request r caller)
        (transformed H r (e.handler caller)) s).1

  abbrev sent_labels_of : Incoming → Endpoint S → Result Json → Labels
  sent_labels_of r e result = record {
    method = (r.http_request).method;
    route = e.path;
    status = sent_status (answer_of H r e.status_code result);
  }

  abbrev CountedAs : Incoming → Endpoint S → S → Option User → Labels → Labels → Type 0
  CountedAs r e s caller m l =
      ((H.metrics).count (handled H r e caller s).1 m ≡ (
        if same_labels l m
        then suc ((H.metrics).count (after_audit r e caller s) m)
        else (H.metrics).count (after_audit r e caller s) m))
      × ((H.metrics).observations (handled H r e caller s).1 m ≡ (
          if same_labels l m
          then suc ((H.metrics).observations (after_audit r e caller s) m)
          else (H.metrics).observations (after_audit r e caller s) m))

  sent_labels :
      (r : Incoming) (method route : String) (code : ℕ) (result : Result Json)
      → Proper result
      → labels_of H.metrics method route code result ≡ record {
        method = method;
        route = route;
        status = sent_status (answer_of H r code result);
      }
  unfolding status_of catch_exception
  sent_labels r method route code (ok j) proper = refl
  sent_labels r method route code (throw (error message)) proper = refl
  sent_labels r method route code (throw (http n message)) proper = ground arith

  transformed-Proper :
      (r : Incoming) (h : Exec S (Option Json)) (s : S)
      → Proper (h s).0
      → Proper (transformed H r h s).0
  transformed-Proper r h s proper = elim (Result-cases (h s).0) [
    | inl (a, fine) ↦ unfold transformed in rw fine tt
    | inr (x, bad) ↦ unfold transformed in rw bad (rw bad at proper)
  ]

  handled-Proper :
      (r : Incoming) (e : Endpoint S) (caller : Option User) (s : S)
      → Proper ((e.handler) caller s).0
      → Proper (handled H r e caller s).0
  unfolding handled Metrics.intercept
  handled-Proper r e caller s proper =
      rw
        (intercept-answer H.create_log e.skip_audit (audit_request r caller)
          (transformed H r (e.handler caller)) s)
        (transformed-Proper r (e.handler caller) s proper)

  handled_counts :
      (r : Incoming) (e : Endpoint S) (s : S) (caller : Option User) (m : Labels)
      → Proper (handled H r e caller s).0
      → CountedAs r e s caller m (sent_labels_of r e (handled H r e caller s).0)
  unfolding handled Metrics.intercept
  handled_counts r e s caller m proper =
      subst (CountedAs r e s caller m)
        (sent_labels r (r.http_request).method e.path e.status_code (handled H r e caller s).0
          proper)
        ((intercept-Counted H.metrics (r.http_request).method e.path e.status_code
            (Audit.intercept H.create_log e.skip_audit (audit_request r caller)
              (transformed H r (e.handler caller)))
            s).1
          m)

  -- An admitted request, whose handler throws no exception with the status 0, is counted once beyond
  -- what the handler and the audit do to the counter, under its method, its route and the status
  -- that the client is sent; the histogram gets one observation, under the same labels.
  pub respond-counted :
      (r : Incoming) (e : Endpoint S) (s s' : S) (caller : Option User) (m : Labels)
      → Asked r e s s' (ok caller)
      → Proper ((e.handler) caller s').0
      → let l : Labels = record {
        method = (r.http_request).method;
        route = e.path;
        status = sent_status (respond H r e s).0;
      } in
        (((H.metrics).count (respond H r e s).1 m ≡ (
            if same_labels l m
            then suc ((H.metrics).count (after_audit r e caller s') m)
            else (H.metrics).count (after_audit r e caller s') m))
          × ((H.metrics).observations (respond H r e s).1 m ≡ (
              if same_labels l m
              then suc ((H.metrics).observations (after_audit r e caller s') m)
              else (H.metrics).observations (after_audit r e caller s') m)))
  unfolding respond
  respond-counted r e s s' caller m passed proper =
      rw (guarded-Asked r e s s' (ok caller) passed)
        (handled_counts r e s' caller m (handled-Proper r e caller s' proper))

module _ {Db : Type 0} (T : Table Db Idempotency.IdempotencyKey) (H : Host (Idempotency.World Db))
    (parse_json : String → Option Idempotency.Body) (stringify : Json → String)
    (stringify_error : ErrorResponse → String) where
  -- Once a keyed request has been admitted, answered with a status of 200 to 299 and stored, every
  -- keyed request with its key is sent that answer for the next 24 hours if the lookup finds the row,
  -- and the state stays: the guards of its own route are not asked, nothing is counted, and no handler runs.
  pub serve-unguarded :
      (r q : Incoming) (e f : Endpoint (Idempotency.World Db)) (key : String)
      (w w' : Idempotency.World Db) (status : ℕ) (j : Json) (db : Db) (later : ℕ)
      → Keyed (keyed_request T H parse_json stringify stringify_error r) key
      → Keyed (keyed_request T H parse_json stringify stringify_error q) key
      → T.find_unique w.db key ≡ ok none
      → respond H r e w ≡ (sent status j, w')
      → 200 ≤ status
      → status < 300
      → T.create w'.db key (
          row_of parse_json key
            (response_of T H parse_json stringify stringify_error (sent status j))
            w'.now)
        ≡ ok db
      → T.find_unique db key ≡ ok (T.rows db key)
      → later ≤ w'.now + Idempotency.ttl
      → (serve T H parse_json stringify stringify_error r e w ≡ (
        ok (response_of T H parse_json stringify stringify_error (sent status j)),
        record w' { db = db },
      ))
        × (serve T H parse_json stringify stringify_error q f (record { db = db; now = later }) ≡ (
          ok (record {
            status = status;
            body = Idempotency.parsed parse_json (Idempotency.text (stringify j));
          }),
          record { db = db; now = later },
        ))
  unfolding serve
  serve-unguarded r q e f key w w' status j db later first second absent ran low high created read
        soon =
      (
        serve-first T parse_json key
            (response_of T H parse_json stringify stringify_error (sent status j)) w w' db
            (keyed_request T H parse_json stringify stringify_error r)
            (responded T H parse_json stringify stringify_error r e) first absent (rw ran refl) low
            high created,
        serve-replay T parse_json key
            (response_of T H parse_json stringify stringify_error (sent status j)) w' db
            (keyed_request T H parse_json stringify stringify_error q)
            (responded T H parse_json stringify stringify_error q f)
            (record { db = db; now = later }) low created second read soon,
      )
