-- ===== src/Access/Sessions.antt =====
-- The handlers of src/domains/auth/presentation/auth.controller.ts behind the guards.
use backend_boilerplate.Base.{
  ◌⊎◌, Exec, Option, Result, String, error, none, pure, raise, reads, some, ◌>>=◌, ◌>>◌, ◌≡◌,
}
use backend_boilerplate.Store.{survives}
use backend_boilerplate.Users.{User}
use backend_boilerplate.Guards.{HttpRequest, admitted}
use backend_boilerplate.Auth.Types.{World, LoginDto, AuthResponseDto, RefreshToken}
use backend_boilerplate.Auth.{Services, login, refresh, logout, logged_out}
use backend_boilerplate.Access.Endpoints.{
  AuthEndpoint, post_login, post_refresh, post_logout, auth_route,
}

pub data AuthRequest : Type 0 where
  sign_in : LoginDto → AuthRequest
  renew : (refresh_token : String) → AuthRequest
  -- `body?.refreshToken`
  sign_out : (refresh_token : Option String) → AuthRequest

pub data AuthReply : Type 0 where
  session : AuthResponseDto → AuthReply
  no_content : AuthReply

unfoldable pub endpoint_of : AuthRequest → AuthEndpoint
endpoint_of (sign_in dto) = post_login
endpoint_of (renew token) = post_refresh
endpoint_of (sign_out token) = post_logout

module _ {Us Tk : Type 0} (S : Services Us Tk) where
  handle_auth : Option User → AuthRequest → Exec (World Us Tk) AuthReply
  handle_auth caller (sign_in dto) = do r ← login S dto; pure (session r)
  handle_auth caller (renew token) = do r ← refresh S token; pure (session r)
  handle_auth none (sign_out token) =
      raise (error "Cannot read properties of undefined (reading 'id')")
  handle_auth (some caller) (sign_out token) = do logout S caller.id token; pure no_content

  unfoldable pub serve_auth : HttpRequest → Result User → AuthRequest → Exec (World Us Tk) AuthReply
  unfolding handle_auth
  serve_auth request strategy r = do
    caller ← reads (λ _. admitted request (auth_route (endpoint_of r)) strategy)
    handle_auth caller r

  -- What a logout of a user does to the sessions.
  abbrev pub OnlyOwn : User → Option String → World Us Tk → World Us Tk → Type 0
  OnlyOwn u token w w' =
      ((j : String)
        → (S.tokens).rows w'.tokens j
          ≡ survives (logged_out u.id token) ((S.tokens).rows w.tokens j))
      × ((j : String)
          → ((S.tokens).rows w'.tokens j ≡ (S.tokens).rows w.tokens j)
            ⊎ ((row : RefreshToken) × ((S.tokens).rows w.tokens j ≡ some row)
                × (row.user_id ≡ u.id)
                × ((S.tokens).rows w'.tokens j ≡ none)))
      × (w'.users ≡ w.users)
