-- ===== src/Validation/Tests.antt =====
-- Objects that the pipe takes and refuses, and a listing behind it.
use backend_boilerplate.User.{to_response_dto, to_response_dtos}
use backend_boilerplate.Access.{route_of}
use backend_boilerplate.Guards.{admitted}
use backend_boilerplate.Pagination.{page_count, skip_of}
use backend_boilerplate.Base.{
  length, suc, Bool-cases, http, ◌==◌, throw, ok, ◌≢◌, error, [], none, ◌∷◌, inr, inl, String, some,
  List, arith, refl, true, ℕ, ◌*◌, ◌≡◌, ◌≤◌,
}
use backend_boilerplate.Json.{null, bool, num, str, Fields, end, field, value_of}
use backend_boilerplate.Users.{User, admin}
use backend_boilerplate.Guards.{HttpRequest}
use backend_boilerplate.Pagination.{page_meta, take, drop}
use backend_boilerplate.User.{QueryUserDto, World, find_all, or_default}
use backend_boilerplate.User.Listed.{ids, selected}
use backend_boilerplate.User.Sample.{services, ann}
use backend_boilerplate.Validation.{
  refresh_token_dto, create_user_dto, update_user_dto, create_feature_flag_dto, login_dto,
  query_user_dto,
}
use backend_boilerplate.Validation.Queries.{serve_listing, serve_listing-page}
use backend_boilerplate.Validation.Sample.{pipe}
use backend_boilerplate.Validation.Typed.{to_query}

abbrev request : HttpRequest
request = record { method = "GET"; path = some "/api/v1/users"; url = none }

abbrev caller : User
caller = record ann { role = admin }

abbrev world : World (List User)
world = record { users = ann ∷ []; events = []; now = 7 }

abbrev body : Fields
body = field "limit" (num 1) (field "sortOrder" (str "asc") end)

abbrev administrator : Fields
administrator =
    field "email" (str "a@x.org")
      (field "password" (str "12345678") (field "role" (str "ADMIN") end))

pipe_tests :
    (pipe.transform query_user_dto body ≡ ok body)
    × (pipe.transform query_user_dto (field "limit" (num 101) end) ≡ throw (http 400 "Bad Request"))
    × (pipe.transform query_user_dto (field "page" (num 0) end) ≡ throw (http 400 "Bad Request"))
    × (pipe.transform query_user_dto (field "admin" (bool true) end)
        ≡ throw (http 400 "Bad Request"))
    × (pipe.transform login_dto
          (field "email" (str "a@x.org") (field "password" (str "1234567") end))
        ≡ throw (http 400 "Bad Request"))
    × (pipe.transform refresh_token_dto end ≡ throw (http 400 "Bad Request"))
    × (pipe.transform create_user_dto administrator ≡ ok administrator)
    × (pipe.transform update_user_dto (field "role" null end) ≡ ok (field "role" null end))
    × (pipe.transform create_feature_flag_dto
          (field "key" (str "k") (field "name" (str "n") (field "enabled" (str "no") end)))
        ≡ throw (http 400 "Bad Request"))
unfolding query_user_dto pipe
pipe_tests = (refl, refl, refl, refl, refl, refl, refl, refl, refl)

not_null : (key : String) → value_of key body ≢ some null
not_null key = elim (Bool-cases ("limit" == key)) [
  | inl e ↦ λ same. ground arith
  | inr n ↦ elim (Bool-cases ("sortOrder" == key)) [
    | inl e ↦ λ same. ground arith
    | inr m ↦ λ same. ground arith
  ]
]

answered :
    serve_listing services pipe (error "") request (ok caller) body world
    ≡ (ok (ann ∷ [], page_meta 1 1 1), world)
unfolding pipe serve_listing query_user_dto find_all to_query admitted route_of page_meta page_count
    skip_of to_response_dto to_response_dtos
answered = refl

serve_listing-page_example :
    ((u : User) × ((ok caller ≡ ok u) × (u.role ≡ admin)))
    × ((out : Fields) × (q : QueryUserDto) × (p : ℕ) × (limit : ℕ) × ((pipe.transform query_user_dto
              body
            ≡ ok out)
          × (to_query out ≡ some q)
          × (or_default q.page 1 ≡ suc p)
          × (or_default q.limit 10 ≡ limit)
          × (1 ≤ limit)
          × (limit ≤ 100)
          × (length (ids (ann ∷ [])) ≤ 100)
          × (world ≡ world)
          × (page_meta 1 1 1 ≡ page_meta (suc p) limit (length (selected services world q)))
          × (ids (ann ∷ []) ≡ take limit (drop (p * limit) (ids (selected services world q))))))
serve_listing-page_example =
    serve_listing-page services pipe (error "") request (ok caller) body world world (ann ∷ [])
      (page_meta 1 1 1) not_null answered
