-- ===== src/Guards/Session.antt =====
-- The guards over the strategy of src/domains/auth: what a token is worth.
use backend_boilerplate.Base.{List, Option, Result, ok, some, true, ◌≡◌}
use backend_boilerplate.Users.{User, Role}
use backend_boilerplate.Auth.Types.{JwtPayload, World}
use backend_boilerplate.Auth.{Services}
use backend_boilerplate.Auth.Strategy.{authenticate, authenticate-stored}
use backend_boilerplate.Guards.{HttpRequest, Route, Listed, admitted, admitted-roles}

-- A route with required roles is entered only with a verified token whose subject has, at that
-- moment, an active account with one of the roles in the table: the role that the token carries
-- does not count.
pub admitted-stored :
    {Us Tk : Type 0} (S : Services Us Tk) (w : World Us Tk) (request : HttpRequest) (route : Route)
    (verified : Result JwtPayload) (required : List Role) (o : Option User)
    → route.roles ≡ some required
    → admitted request route (authenticate S verified w) ≡ ok o
    → (u : User) × (p : JwtPayload) × (o ≡ some u)
      × (verified ≡ ok p)
      × ((S.users).by_id w.users p.sub ≡ some u)
      × (u.is_active ≡ true)
      × Listed u.role required
admitted-stored S w request route verified required o guarded passed =
    let (u, (known, shape, listed, _)) =
      admitted-roles request route (authenticate S verified w) required o guarded passed in
    let (p, token, row, active) = authenticate-stored S verified w u known in
    (u, p, shape, token, row, active, listed)
