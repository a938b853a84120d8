-- ===== src/Access/Handlers.antt =====
-- The handlers of src/domains/user/presentation/user.controller.ts behind the guards.
use text.Mathlib.TextPositions.{eq_refl}
use backend_boilerplate.Base.{
  Exec, List, Option, Result, Result-cases, String, [], arith, error, inl, inr, none, ok, pure,
  raise, reads, refl, some, ◌>>=◌, ◌>>◌, ◌∷◌, ◌≡◌,
}
use backend_boilerplate.Users.{User, admin}
use backend_boilerplate.Guards.{HttpRequest, admitted, admitted-roles, Listed-admin}
use backend_boilerplate.Pagination.{PaginationMeta}
use backend_boilerplate.User.{
  CreateUserDto, UpdateUserDto, QueryUserDto, World, Services, create, update, remove, find_one,
  find_all,
}
use backend_boilerplate.User.Account.{remove_lem}
use backend_boilerplate.Access.{
  Endpoint, post_users, get_me, get_users, get_user, patch_user, delete_user, route_of, admin_route,
}

pub data UserRequest : Type 0 where
  sign_up : CreateUserDto → UserRequest
  profile : UserRequest
  listing : QueryUserDto → UserRequest
  account : (id : String) → UserRequest
  edit : (id : String) → UpdateUserDto → UserRequest
  erase : (id : String) → UserRequest

pub data UserReply : Type 0 where
  user : User → UserReply
  users : List User → PaginationMeta → UserReply
  no_content : UserReply

unfoldable pub endpoint_of : UserRequest → Endpoint
endpoint_of (sign_up dto) = post_users
endpoint_of profile = get_me
endpoint_of (listing query) = get_users
endpoint_of (account id) = get_user
endpoint_of (edit id dto) = patch_user
endpoint_of (erase id) = delete_user

module _ {Us : Type 0} (S : Services Us) where
  -- With `request.user`.
  handle_user : Option User → UserRequest → Exec (World Us) UserReply
  handle_user caller (sign_up dto) = do u ← create S dto; pure (user u)
  handle_user none profile = raise (error "Cannot read properties of undefined (reading 'id')")
  handle_user (some caller) profile = do u ← find_one S caller.id; pure (user u)
  handle_user caller (listing query) = do found ← find_all S query; pure (users found.0 found.1)
  handle_user caller (account id) = do u ← find_one S id; pure (user u)
  handle_user caller (edit id dto) = do u ← update S id dto; pure (user u)
  handle_user caller (erase id) = do remove S id; pure no_content

  unfoldable pub serve_user : HttpRequest → Result User → UserRequest → Exec (World Us) UserReply
  unfolding handle_user
  serve_user request strategy r = do
    caller ← reads (λ _. admitted request (route_of (endpoint_of r)) strategy)
    handle_user caller r

  -- A deletion that is answered was an administrator's, and the account is gone.
  pub serve_user-erase :
      (request : HttpRequest) (strategy : Result User) (id : String) (w w' : World Us)
      (r : UserReply)
      → serve_user request strategy (erase id) w ≡ (ok r, w')
      → (u : User) × ((strategy ≡ ok u) × (u.role ≡ admin)) × ((S.users).by_id w'.users id ≡ none)
  unfolding serve_user endpoint_of route_of
  serve_user-erase request strategy id w w' r e =
      elim (Result-cases (admitted request admin_route strategy)) [
        | inr (x, refused) ↦ absurd (ground (arith, refused))
        | inl (o, passed) ↦ elim (Result-cases (remove S id w).0) [
          | inr (x, failed) ↦ absurd (ground (arith, passed, failed))
          | inl (done, removed) ↦
              let (u, x) = admitted-roles request admin_route strategy (admin ∷ []) o refl passed in
              let (_, (_, gone, _)) =
                remove_lem S w w' id id (ground (arith, passed, removed, e)) in
              (u, (x.0, Listed-admin x.2), ground (arith, gone, eq_refl id))
        ]
      ]
