-- ===== src/Guards.antt =====
-- src/core/guards: jwt-auth.guard.ts and roles.guard.ts, in the order in which core.module.ts
-- installs them, before the throttler's verdict is of interest. What passport's strategy says of the
-- request's token is a parameter: the user, or the exception that it throws.
mod Session
mod Tests
use backend_boilerplate.Base.{
  Exception, ◌⊎◌, http, Bool, Bool-cases, List, Option, Result, String, [], any, arith, false, http,
  if◌then◌else◌, inl, inr, none, ok, refl, some, subst, throw, true, ◌&&◌, ◌*◌, ◌==◌, ◌∷◌, ◌≡◌,
}
use backend_boilerplate.Users.{User, Role, admin, user, moderator}

pub record HttpRequest : Type 0 where
  pub method : String
  pub path : Option String
  pub url : Option String

-- The decorators of a route: `@Public()` and `@Roles(...)`.
pub record Route : Type 0 where
  pub is_public : Bool
  pub roles : Option (List Role)

abbrev pub request_path : HttpRequest → String
request_path r = elim r.path [ some p ↦ p | none ↦ elim r.url [ some u ↦ u | none ↦ "" ] ]

-- The guard's verdict and `request.user` after it.
pub jwt_can_activate : HttpRequest → Route → Result User → Result (Bool × Option User)
jwt_can_activate request route strategy =
    if request.method == "GET" && request_path request == "/metrics"
    then ok (true, none)
    else if route.is_public
    then ok (true, none)
    else elim strategy [ ok u ↦ ok (true, some u) | throw e ↦ throw e ]

abbrev pub same_role : Role → Role → Bool
same_role admin admin = true
same_role user user = true
same_role moderator moderator = true
same_role _ _ = false

pub roles_can_activate : Route → Option User → Bool
roles_can_activate route request_user = elim route.roles [
  | none ↦ true
  | some required ↦ elim request_user [ none ↦ false | some u ↦ any (same_role u.role) required ]
]

abbrev then_roles : Route → Result (Bool × Option User) → Result (Option User)
then_roles route (throw e) = throw e
then_roles route (ok (false, u)) = throw (http 403 "Forbidden resource")
then_roles route (ok (true, u)) =
    if roles_can_activate route u then ok u else throw (http 403 "Forbidden resource")

-- Both guards in turn: the user that the handler sees, or the exception. Nest turns a refusal
-- into 403.
unfoldable pub admitted : HttpRequest → Route → Result User → Result (Option User)
unfolding jwt_can_activate roles_can_activate
admitted request route strategy = then_roles route (jwt_can_activate request route strategy)

pub data Listed (r : Role) : List Role → Type 0 where
  here : {rs : List Role} → Listed r (r ∷ rs)
  there : {s : Role} {rs : List Role} → Listed r rs → Listed r (s ∷ rs)

pub Listed-admin : {r : Role} → Listed r (admin ∷ []) → r ≡ admin
Listed-admin here = refl
Listed-admin (there l) = elim l [ ]

same_role-eq : (r s : Role) → same_role r s ≡ true → r ≡ s
same_role-eq r s e = ground arith

any-Listed : (r : Role) (rs : List Role) → any (same_role r) rs ≡ true → Listed r rs
any-Listed r [] e = absurd (ground arith)
any-Listed r (s ∷ rs) e = elim (Bool-cases (same_role r s)) [
  | inl same ↦ subst (λ x. Listed r (x ∷ rs)) (same_role-eq r s same) here
  | inr other ↦ there (any-Listed r rs (ground arith))
]

-- A route with required roles is entered only by a user whom the strategy has authenticated and who
-- has one of them, and only if the route is not public.
pub admitted-roles :
    (request : HttpRequest) (route : Route) (strategy : Result User) (required : List Role)
    (o : Option User)
    → route.roles ≡ some required
    → admitted request route strategy ≡ ok o
    → (u : User) × ((strategy ≡ ok u)
        × (o ≡ some u)
        × Listed u.role required
        × (route.is_public ≡ false))
unfolding admitted
admitted-roles request route (throw x) required o guarded e = absurd (ground arith)
admitted-roles request route (ok u) required o guarded e =
    (u, (refl, ground arith, any-Listed u.role required (ground arith), ground arith))

-- A route without roles that is neither public nor the metrics path passes on exactly what the
-- strategy says.
pub admitted-authenticated :
    (request : HttpRequest) (route : Route) (strategy : Result User)
    → route.roles ≡ none
    → route.is_public ≡ false
    → (request.method == "GET" && request_path request == "/metrics") ≡ false
    → admitted request route strategy ≡ (elim strategy [ ok u ↦ ok (some u) | throw e ↦ throw e ])
unfolding admitted
admitted-authenticated request route strategy open_to_all private_route other = ground arith

-- A public route passes every request, without a user.
pub admitted-public :
    (request : HttpRequest) (strategy : Result User)
    → admitted request (record { is_public = true; roles = none }) strategy ≡ ok none
unfolding admitted
admitted-public request strategy = ground arith

-- A refusal is the strategy's own exception, or 403.
pub admitted-throw :
    (request : HttpRequest) (route : Route) (strategy : Result User) (x : Exception)
    → admitted request route strategy ≡ throw x
    → (strategy ≡ throw x) ⊎ (x ≡ http 403 "Forbidden resource")
unfolding admitted
admitted-throw request route (throw e) x refused =
    elim (Bool-cases (request.method == "GET" && request_path request == "/metrics")) [
      | inl metrics ↦ inr (ground (arith, metrics))
      | inr other ↦ elim (Bool-cases route.is_public) [
        | inl public_one ↦ inr (ground (arith, public_one))
        | inr private_one ↦ inl (ground (arith, other, private_one))
      ]
    ]
admitted-throw request route (ok u) x refused = inr (ground arith)
