-- ===== src/Idempotency.antt =====
-- src/core/middlewares/idempotency.middleware.ts and request-id.middleware.ts. A request runs `use`
-- first; if that passes it on, the handler runs and sends a response, and `on_finish` runs when the
-- response is complete.
pub mod Replay
mod Tests
use backend_boilerplate.Base.{
  Bool, Exec, Option, Result, String, [], any, if◌then◌else◌, includes, leb, ltb, nat_eq, none, not,
  ok, pure, reads, some, stored, throw, truthy, try_catch, writes, ℕ, ◌&&◌, ◌*◌, ◌+◌, ◌>>=◌, ◌>>◌,
  ◌||◌, ◌∷◌,
}
use backend_boilerplate.Store.{Table}

-- A body that `res.send` is given: a text, or any other value by its JSON text. `Json` keeps the
-- parsed value of a text by that text too.
pub data Body : Type 0 where
  text : String → Body
  json : String → Body

pub record Request : Type 0 where
  pub method : String
  pub idempotency_key : Option String
  pub x_request_id : Option String

pub record Response : Type 0 where
  pub status : ℕ
  pub body : Body

-- A row of `idempotency_keys`.
pub record IdempotencyKey : Type 0 where
  pub key : String
  pub status_code : ℕ
  pub response : Body
  pub expires_at : ℕ

-- 24 hours, in milliseconds
abbrev pub ttl : ℕ
ttl = 24 * 60 * 60 * 1000

pub record World (Db : Type 0) : Type 0 where
  pub db : Db
  pub now : ℕ

-- What becomes of a request: `next()` with or without the capture of its response, or an answer
-- from the table.
pub data Verdict : Type 0 where
  pass : Verdict
  pass_and_store : String → Verdict
  replay : Response → Verdict

abbrev pub should_check : String → Bool
should_check method = includes ("POST" ∷ "PUT" ∷ "PATCH" ∷ []) method

-- `existingKey.statusCode || HttpStatus.OK`
abbrev pub stored_status : ℕ → ℕ
stored_status code = if nat_eq code 0 then 200 else code

-- `JSON.parse`, which refuses some texts: `none`.
abbrev pub parsed : (String → Option Body) → Body → Body
parsed parse_json (json v) = json v
parsed parse_json (text t) = elim (parse_json t) [ none ↦ text t | some v ↦ v ]

-- request-id.middleware.ts: the id of a request, from its header or a new one.
unfoldable pub request_id : String → Request → Request × String
request_id uuid req =
    let id : String = elim req.x_request_id [
      | none ↦ uuid
      | some h ↦ if truthy h then h else uuid
    ] in
    (record req { x_request_id = some id }, id)

module _ {Db : Type 0} (T : Table Db IdempotencyKey) where
  abbrev with_db : World Db → Result Db → Result (World Db)
  with_db w (ok db) = ok (record w { db = db })
  with_db w (throw e) = throw e

  abbrev delete_key : String → Exec (World Db) (Unit {0})
  delete_key key = writes (λ w. with_db w (T.delete w.db key))

  decide : String → ℕ → Option IdempotencyKey → Exec (World Db) Verdict
  decide key now none = pure (pass_and_store key)
  decide key now (some existing) =
      if ltb existing.expires_at now
      then (do delete_key key; pure (pass_and_store key))
      else pure (
          replay (record { status = stored_status existing.status_code; body = existing.response }))

  check : String → Exec (World Db) Verdict
  unfolding decide
  check key = do
    existing ← reads (λ w. T.find_unique w.db key)
    now ← reads (λ w. ok w.now)
    decide key now existing

  -- Errors of the middleware do not block the request: it goes on, and is not stored.
  pub handle : Request → Exec (World Db) Verdict
  unfolding check
  handle req =
      if should_check req.method
      then elim req.idempotency_key [
        | none ↦ pure pass
        | some key ↦ if truthy key then try_catch (check key) (λ _. pure pass) else pure pass
      ]
      else pure pass

  -- `res.on('finish')`, with the status and body that `send` was given. A failure is logged.
  pub on_finish : (String → Option Body) → String → Response → Exec (World Db) (Unit {0})
  on_finish parse_json key res =
      if leb 200 res.status && ltb res.status 300
      then try_catch
          (writes (λ w. with_db w (
            T.create w.db key (record {
              key = key;
              status_code = res.status;
              response = parsed parse_json res.body;
              expires_at = w.now + ttl;
            }))))
          (λ _. pure tt)
      else pure tt

  finish : (String → Option Body) → Verdict → (Exec (World Db) Response) → Exec (World Db) Response
  finish parse_json (replay answer) handler = pure answer
  finish parse_json pass handler = handler
  finish parse_json (pass_and_store key) handler = do
    res ← handler
    on_finish parse_json key res
    pure res

  -- A request from the middleware to the complete response; `handler` is the rest of the server.
  pub serve : (String → Option Body) → Request → Exec (World Db) Response → Exec (World Db) Response
  unfolding handle on_finish finish
  serve parse_json req handler = do verdict ← handle req; finish parse_json verdict handler
