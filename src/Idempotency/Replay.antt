-- ===== src/Idempotency/Replay.antt =====
-- When a request is answered from the table, and when it runs.
use text.Mathlib.TextPositions.{eq_refl}
use backend_boilerplate.Base.{
  inr, inl, Result-cases, Exec, Option, String, arith, if◌then◌else◌, none, ok, some, stored, true,
  truthy, ℕ, ◌+◌, ◌<◌, ◌==◌, ◌≡◌, ◌≤◌, ◌⊎◌,
}
use backend_boilerplate.Store.{Table}
use backend_boilerplate.Idempotency.{
  Body, Request, Response, IdempotencyKey, World, Verdict, pass_and_store, ttl, should_check,
  parsed, handle, on_finish, serve,
}

abbrev pub row_of : (String → Option Body) → String → Response → ℕ → IdempotencyKey
row_of parse_json key res now = record {
  key = key;
  status_code = res.status;
  response = parsed parse_json res.body;
  expires_at = now + ttl;
}

-- A request that the middleware looks at.
abbrev pub Keyed : Request → String → Type 0
Keyed req key =
    (should_check req.method ≡ true) × (req.idempotency_key ≡ some key) × (truthy key ≡ true)

module _ {Db : Type 0} (T : Table Db IdempotencyKey) where
  -- Once the row of a response, of a status of at least 200, is stored, a request with its key is
  -- answered by it in the next 24 hours if the lookup finds the row, whatever else the request
  -- holds: the handler does not run, and the state does not change.
  pub serve-replay :
      (parse_json : String → Option Body) (key : String) (res : Response) (w : World Db) (db : Db)
      (req : Request) (handler : Exec (World Db) Response) (v : World Db)
      → 200 ≤ res.status
      → T.create w.db key (row_of parse_json key res w.now) ≡ ok db
      → Keyed req key
      → T.find_unique v.db key ≡ ok (T.rows db key)
      → v.now ≤ w.now + ttl
      → serve T parse_json req handler v
        ≡ (ok (record { status = res.status; body = parsed parse_json res.body }), v)
  unfolding serve
  serve-replay parse_json key res w db req handler v good stored keyed read soon =
      ground (arith, T.create_rows w.db key (row_of parse_json key res w.now) key, eq_refl key)

  -- The table after a handler's response: a row for a status of 200 to 299, unless it cannot be
  -- written, and no change otherwise. It never throws.
  pub on_finish_rows :
      (parse_json : String → Option Body) (key : String) (res : Response) (w : World Db)
      (j : String)
      → ((on_finish T parse_json key res w).0 ≡ ok tt)
        × ((T.rows ((on_finish T parse_json key res w).1).db j ≡ T.rows w.db j)
            ⊎ ((200 ≤ res.status)
                × (res.status < 300)
                × (T.rows w.db key ≡ none)
                × (T.rows ((on_finish T parse_json key res w).1).db j ≡ (
                    if key == j then some (row_of parse_json key res w.now) else T.rows w.db j))))
  unfolding on_finish
  on_finish_rows parse_json key res w j = ground (
    arith,
    T.create_rows w.db key (row_of parse_json key res w.now) j,
    T.create_unique w.db key (row_of parse_json key res w.now),
  )

  -- The middleware throws on no request: whatever the table does, it passes the request on or answers
  -- it.
  pub handle_total : (req : Request) (w : World Db) → (v : Verdict) × ((handle T req w).0 ≡ ok v)
  unfolding handle
  handle_total req w = elim (Result-cases (handle T req w).0) [
    | inl returned ↦ returned
    | inr (x, bad) ↦ absurd (ground arith)
  ]

  -- A key that has expired does not answer: the row is deleted and the request runs as a new one.
  pub handle_expired :
      (req : Request) (key : String) (w : World Db) (row : IdempotencyKey) (db : Db)
      → Keyed req key
      → T.find_unique w.db key ≡ ok (some row)
      → row.expires_at < w.now
      → T.delete w.db key ≡ ok db
      → (handle T req w ≡ (ok (pass_and_store key), record w { db = db })) × (T.rows db key ≡ none)
  unfolding handle
  handle_expired req key w row db keyed there old gone =
      ground (arith, T.delete_rows w.db key key, eq_refl key)

  -- Nothing marks a key while its first request is still running: a second request with the key
  -- passes as well, and both handlers run.
  pub handle_in_flight :
      (first second : Request) (key : String) (w w' : World Db)
      → Keyed first key
      → Keyed second key
      → T.find_unique w.db key ≡ ok none
      → handle T first w ≡ (ok (pass_and_store key), w')
      → handle T second w' ≡ (ok (pass_and_store key), w)
  unfolding handle
  handle_in_flight first second key w w' k1 k2 absent e = ground arith

  -- A new key: the handler runs, and its response of a status of 200 to 299 is stored.
  pub serve-first :
      (parse_json : String → Option Body) (key : String) (res : Response) (w w' : World Db)
      (db : Db) (req : Request) (handler : Exec (World Db) Response)
      → Keyed req key
      → T.find_unique w.db key ≡ ok none
      → handler w ≡ (ok res, w')
      → 200 ≤ res.status
      → res.status < 300
      → T.create w'.db key (row_of parse_json key res w'.now) ≡ ok db
      → serve T parse_json req handler w ≡ (ok res, record w' { db = db })
  unfolding serve
  serve-first parse_json key res w w' db req handler keyed absent ran low high created =
      ground arith
