-- ===== src/Validation/Queries.antt =====
-- GET /users behind the guards and the pipe: `findAll` of
-- src/domains/user/presentation/user.controller.ts.
use backend_boilerplate.Base.{
  reads, zero, suc, ◌>>=◌, Result-cases, Exec, length, suc, refl, inr, arith, inl, [], ◌≢◌, ◌∷◌,
  ◌≡◌, List, Exception, Option, Result, String, none, ok, some, ℕ, ◌*◌, ◌≤◌,
}
use backend_boilerplate.Json.{null, Fields, value_of}
use backend_boilerplate.Users.{User, admin}
use backend_boilerplate.Guards.{HttpRequest, admitted}
use backend_boilerplate.Pagination.{PaginationMeta, page_meta, take, drop}
use backend_boilerplate.User.{QueryUserDto, World, Services, find_all, or_default}
use backend_boilerplate.User.Listed.{ids, selected, find_all_lem}
use backend_boilerplate.Access.{get_users, route_of, admitted-admin}
use backend_boilerplate.Validation.{ValidationPipe, query_user_dto}
use backend_boilerplate.Validation.Typed.{to_query, or_fail, transform-InRange}

default_page : (o : Option ℕ) → ((n : ℕ) → o ≡ some n → 1 ≤ n) → (p : ℕ) × (or_default o 1 ≡ suc p)
default_page none low = (0, refl)
default_page (some zero) low = absurd (ground (arith, low 0 refl))
default_page (some (suc p)) low = (p, refl)

default_limit :
    (o : Option ℕ)
    → ((n : ℕ) → o ≡ some n → (1 ≤ n) × (n ≤ 100))
    → (1 ≤ or_default o 10) × (or_default o 10 ≤ 100)
default_limit none within = (omega arith, omega arith)
default_limit (some n) within = within n refl

length-take : {A : Type 0} (n : ℕ) (xs : List A) → length (take n xs) ≤ n
length-take zero xs = omega arith
length-take (suc n) [] = omega arith
length-take (suc n) (x ∷ xs) = let rest = length-take n xs in omega arith

-- A page is no longer than its limit.
at_most :
    (rows : List User) (limit : ℕ) (xs : List String)
    → limit ≤ 100
    → ids rows ≡ take limit xs
    → length (ids rows) ≤ 100
at_most rows limit xs most page = let short = length-take limit xs in rw page (omega arith)

module _ {Us : Type 0} (S : Services Us) (P : ValidationPipe) (untyped : Exception) where
  -- `findAll` of the controller behind the guards and the pipe; `untyped` stands for what a query of
  -- other types would meet.
  unfoldable pub serve_listing :
      HttpRequest → Result User → Fields → Exec (World Us) (List User × PaginationMeta)
  serve_listing request strategy body = do
    caller ← reads (λ _. admitted request (route_of get_users) strategy)
    out ← reads (λ _. P.transform query_user_dto body)
    query ← reads (λ _. or_fail (to_query out) untyped)
    find_all S query

  -- A listing that is answered was asked for by an administrator, whatever the query string, in which
  -- no value is `null`. The query is read off what the pipe lets through, its page is at least 1 and its limit from 1 to
  -- 100, where 1 and 10 stand in for those left out; the rows are that page of the users it selects,
  -- so that no answer holds more than 100 of them, and nothing changes.
  pub serve_listing-page :
      (request : HttpRequest) (strategy : Result User) (body : Fields) (w w' : World Us)
      (rows : List User) (meta : PaginationMeta)
      → ((key : String) → value_of key body ≢ some null)
      → serve_listing request strategy body w ≡ (ok (rows, meta), w')
      → ((u : User) × ((strategy ≡ ok u) × (u.role ≡ admin)))
        × ((out : Fields) × (q : QueryUserDto) × (p : ℕ) × (limit : ℕ) × ((P.transform
                  query_user_dto body
                ≡ ok out)
              × (to_query out ≡ some q)
              × (or_default q.page 1 ≡ suc p)
              × (or_default q.limit 10 ≡ limit)
              × (1 ≤ limit)
              × (limit ≤ 100)
              × (length (ids rows) ≤ 100)
              × (w' ≡ w)
              × (meta ≡ page_meta (suc p) limit (length (selected S w q)))
              × (ids rows ≡ take limit (drop (p * limit) (ids (selected S w q))))))
  unfolding serve_listing
  serve_listing-page request strategy body w w' rows meta no_null e =
      elim (Result-cases (admitted request (route_of get_users) strategy)) [
        | inr (x, refused) ↦ absurd (ground (arith, refused))
        | inl (o, passed) ↦ elim (Result-cases (P.transform query_user_dto body)) [
          | inr (x, bad) ↦ absurd (ground (arith, passed, bad))
          | inl (out, good) ↦
              let (q, (read, (low, within))) = transform-InRange P body out no_null good in
              let (p, first) = default_page q.page low in
              let (least, most) = default_limit q.limit within in
              let (same, shape, page) =
                find_all_lem S w w' q p rows meta first (ground (arith, passed, good, read)) in
              let length-ids : length (ids rows) ≤ 100 =
                at_most rows (or_default q.limit 10) _ most page in
              (
                admitted-admin request get_users strategy o (inl refl) passed,
                (
                  out,
                  q,
                  p,
                  or_default q.limit 10,
                  (good, read, first, refl, least, most, length-ids, same, shape, page),
                ),
              )
        ]
      ]
