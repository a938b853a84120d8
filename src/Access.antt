-- ===== src/Access.antt =====
-- The routes of src/domains/user/presentation/user.controller.ts: their decorators, and what the
-- guards make of them.
mod Endpoints
mod Sessions
mod Logs
mod Handlers
mod Tests
use backend_boilerplate.Base.{
  Option, Result, String, [], arith, false, none, ok, refl, some, true, ◌*◌, ◌∙◌, ◌∷◌, ◌≡◌, ◌⊎◌,
}
use backend_boilerplate.Users.{User, Role, or_else, admin}
use backend_boilerplate.Guards.{
  HttpRequest, Route, Listed, here, there, request_path, admitted, admitted-roles, Listed-admin,
  admitted-authenticated, admitted-public,
}
use backend_boilerplate.User.{CreateUserDto, UpdateUserDto, World, Services, create, update}
use backend_boilerplate.User.Account.{create-Created, update-Updated}

abbrev pub public_route : Route
public_route = record { is_public = true; roles = none }

abbrev pub user_route : Route
user_route = record { is_public = false; roles = none }

abbrev pub admin_route : Route
admin_route = record { is_public = false; roles = some (admin ∷ []) }

pub data Endpoint : Type 0 where
  post_users get_me get_users get_user patch_user delete_user : Endpoint

unfoldable pub route_of : Endpoint → Route
route_of post_users = public_route
route_of get_me = user_route
route_of get_users = admin_route
route_of get_user = user_route
route_of patch_user = user_route
route_of delete_user = admin_route

-- The guards pass a request to list or to delete accounts only if the strategy authenticates it as
-- an administrator's.
pub admitted-admin :
    (request : HttpRequest) (e : Endpoint) (strategy : Result User) (o : Option User)
    → (e ≡ get_users) ⊎ (e ≡ delete_user)
    → admitted request (route_of e) strategy ≡ ok o
    → (u : User) × ((strategy ≡ ok u) × (u.role ≡ admin))
unfolding route_of
admitted-admin request e strategy o which passed =
    let guarded : (route_of e).roles ≡ some (admin ∷ []) = ground arith in
    let (u, x) = admitted-roles request (route_of e) strategy (admin ∷ []) o guarded passed in
    (u, (x.0, Listed-admin x.2))

-- Whoever signs up chooses the role: whatever the strategy says of it, a request passes the
-- guards, and the account that a creation adds has the role that its body asks for, that of an administrator too.
pub signup-role :
    {Us : Type 0} (S : Services Us) (request : HttpRequest) (strategy : Result User)
    (w w' : World Us) (dto : CreateUserDto) (r : User) (role : Role)
    → dto.role ≡ some role
    → create S dto w ≡ (ok r, w')
    → (admitted request (route_of post_users) strategy ≡ ok none)
      × (r.role ≡ role)
      × ((u : User) × (((S.users).by_id w'.users r.id ≡ some u) × (u.role ≡ role)))
unfolding route_of
signup-role S request strategy w w' dto r role asked e =
    let (u, x) = create-Created S w w' dto r e in
    let chosen : u.role ≡ role = ground arith in
    let shown : r.role ≡ u.role = ground arith in
    let same_id : r.id ≡ u.id = ground arith in
    (admitted-public request strategy, shown ∙ chosen, (u, (rw same_id x.2, chosen)))

-- Every authenticated user may change every account, the role included: the guards pass a PATCH of
-- any caller, and after an update that returns the row has the role that the body asks for.
pub update-role :
    {Us : Type 0} (S : Services Us) (request : HttpRequest) (caller : User) (w w' : World Us)
    (id : String) (dto : UpdateUserDto) (r : User) (role : Role)
    → request.method ≡ "PATCH"
    → dto.role ≡ some (some role)
    → update S id dto w ≡ (ok r, w')
    → (admitted request (route_of patch_user) (ok caller) ≡ ok (some caller))
      × ((v : User) × (((S.users).by_id w'.users id ≡ some v) × (v.role ≡ role)))
unfolding route_of
update-role S request caller w w' id dto r role patch asked e =
    let (u, v, x) = update-Updated S w w' id dto r e in
    (
      admitted-authenticated request user_route (ok caller) refl refl (rw patch refl),
      (v, (x.1, ground (arith, x))),
    )
