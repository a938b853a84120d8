-- ===== src/Idempotency/Tests.antt =====
-- The middleware at a small table.
use backend_boilerplate.Base.{
  List, Option, String, [], error, none, ok, pure, raise, refl, some, ◌∷◌, ◌≡◌,
}
use backend_boilerplate.Store.Assoc.{assoc_table, assoc_steps}
use backend_boilerplate.Idempotency.{
  Body, text, json, Request, Response, IdempotencyKey, World, handle, on_finish, serve, request_id,
}
use backend_boilerplate.Idempotency.Replay.{row_of}

abbrev Db : Type 0
Db = List (String × IdempotencyKey)

abbrev as_json : String → Option Body
as_json t = some (json t)

abbrev post : Request
post = record { method = "POST"; idempotency_key = some "k"; x_request_id = none }

abbrev created : Response
created = record { status = 201; body = text "{}" }

abbrev empty : World Db
empty = record { db = []; now = 5 }

abbrev stored : Db
stored = ("k", row_of as_json "k" created 5) ∷ []

run : Unit {0}
unfolding handle on_finish serve assoc_steps request_id
run = tt

idempotency_tests :
    (serve assoc_table as_json post (pure created) empty
      ≡ (ok created, record { db = stored; now = 5 }))
    × (serve assoc_table as_json post (raise (error "x")) (record { db = stored; now = 9 })
        ≡ (ok (record { status = 201; body = json "{}" }), record { db = stored; now = 9 }))
    × ((request_id "new" post).1 ≡ "new")
unfolding run
idempotency_tests = (refl, refl, refl)
