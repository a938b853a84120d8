-- ===== src/Websocket/Handshake.antt =====
-- The token of a socket: `extractToken` of infrastructure/guards/ws-jwt.guard.ts, before the guard.
use Prim.Native.String.{◌++◌ as str_append}
use backend_boilerplate.Base.{
  Exec, Option, Result, String, error, none, refl, remove_first, remove_first-append, some, throw,
  ◌≡◌,
}
use backend_boilerplate.Json.{Json, str, obj, Fields, value_of}
use backend_boilerplate.Websocket.{Gateway, Reply, WsMessage, WsUser, receive}

-- `client.handshake`
pub record Handshake : Type 0 where
  pub auth : Option Json
  pub authorization : Option Json
  pub query_token : Option Json

-- `typeof v === 'string'`
abbrev as_string : Option Json → Option String
as_string (some (str s)) = some s
as_string _ = none

-- `'token' in auth`, of an object
abbrev auth_token : Option Json → Option String
auth_token (some (obj fs)) = as_string (value_of "token" fs)
auth_token _ = none

abbrev without_bearer : String → String
without_bearer s = remove_first "Bearer " s

-- The first of the three places that has a text.
abbrev from_places : (auth header query : Option String) → Option String
from_places (some token) header query = some (without_bearer token)
from_places none (some token) query = some (without_bearer token)
from_places none none query = query

unfoldable pub extract_token : Handshake → Option String
unfolding remove_first
extract_token h =
    from_places (auth_token h.auth) (as_string h.authorization) (as_string h.query_token)

-- A message of a socket, with its handshake, through the guard. `verified` is what the configuration
-- and the JWT library make of a token.
unfoldable pub receive_from :
    (String → Result WsUser) → Handshake → String → WsMessage → Exec Gateway Reply
unfolding extract_token
receive_from verified h client msg =
    let token = extract_token h in
    receive token (elim token [ none ↦ throw (error "jwt must be provided") | some t ↦ verified t ])
      client msg

-- A token that a client gives as a bearer's in its authentication is the one that is verified,
-- whatever the headers and the query hold; and one in the authorization header, if the authentication has none, whatever
-- the query holds.
pub receive_from-bearer :
    (verified : String → Result WsUser) (t client : String) (authorization query : Option Json)
    (msg : WsMessage) (fs : Fields)
    → value_of "token" fs ≡ some (str (str_append "Bearer " t))
    → (receive_from verified
          (record { auth = some (obj fs); authorization = authorization; query_token = query })
          client
          msg
        ≡ receive (some t) (verified t) client msg)
      × (receive_from verified
            (record {
              auth = none;
              authorization = some (str (str_append "Bearer " t));
              query_token = query;
            })
            client
            msg
          ≡ receive (some t) (verified t) client msg)
unfolding receive_from
receive_from-bearer verified t client authorization query msg fs held =
    let bearer : without_bearer (str_append "Bearer " t) ≡ t = remove_first-append "Bearer " t in
    (rw (held, bearer) refl, rw bearer refl)

-- An empty token in the authentication hides a good one in the header: the message is refused.
pub receive_from-empty :
    (verified : String → Result WsUser) (client : String) (authorization query : Option Json)
    (msg : WsMessage) (fs : Fields) (g : Gateway)
    → value_of "token" fs ≡ some (str "")
    → receive_from verified
        (record { auth = some (obj fs); authorization = authorization; query_token = query })
        client
        msg
        g
      ≡ (throw (error "Unauthorized: No token provided"), g)
unfolding receive_from receive
receive_from-empty verified client authorization query msg fs g held = rw held refl
