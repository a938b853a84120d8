-- ===== src/Websocket.antt =====
-- src/infra/websocket: presentation/websocket.gateway.ts, and infrastructure/guards/ws-jwt.guard.ts
-- before each message. What socket.io is told is kept as a list, the latest last; a socket is named
-- by its id. Timestamps are left out.
mod Registry
mod Sessions
mod Delivery
mod Handshake
mod Interleaved
mod Tests
use backend_boilerplate.Base.{
  modify, Bool, Exec, List, Option, Result, String, [], error, false, if◌then◌else◌, includes, keep,
  length, none, not, ok, pure, raise, reads, some, suc, throw, truthy, truthy?, ℕ, ◌*◌, ◌++◌, ◌==◌,
  ◌>>=◌, ◌>>◌, ◌∷◌,
}

pub record WsUser : Type 0 where
  pub id : String
  pub email : String
  pub role : String

-- Who is sent an event.
pub data Target : Type 0 where
  everyone : Target
  in_room : (room : String) → Target
  all_but : (client : String) → Target
  in_room_but : (room client : String) → Target
  only : (client : String) → Target

-- An event with its payload; the user may be missing from it.
pub data WsEvent : Type 0 where
  user_left user_joined : WsUser → WsEvent
  user_joined_room user_left_room : (room : String) → Option WsUser → WsEvent
  message : Option WsUser → (text : String) → (room : Option String) → WsEvent
  user_typing : Option WsUser → Bool → (room : Option String) → WsEvent
  server_shutdown : WsEvent
  custom : (event : String) → WsEvent

pub data SocketCall : Type 0 where
  join leave : (client room : String) → SocketCall
  emit : Target → WsEvent → SocketCall
  disconnect : (client : String) → SocketCall

-- `connectedClients` by id, in the order of insertion; `client.user` of every socket; and how often
-- the gauge went up and down.
pub record Gateway : Type 0 where
  pub connected_clients : List String
  pub users : String → Option WsUser
  pub increments : ℕ
  pub decrements : ℕ
  pub calls : List SocketCall

-- What a client sends.
pub data WsMessage : Type 0 where
  authenticate : WsMessage
  join_room leave_room : (room : String) → WsMessage
  send_message : (room : Option String) → (text : String) → WsMessage
  typing : (room : Option String) → Bool → WsMessage

-- The answer's event, with the message of an error.
pub data Reply : Type 0 where
  authenticated : WsUser → Reply
  joined_room left_room : (room : String) → Reply
  message_sent no_reply : Reply
  refused : (text : String) → Reply

abbrev pub tell : SocketCall → Exec Gateway (Unit {0})
tell c = modify (λ g. record g { calls = g.calls ++ c ∷ [] })

-- `Map.delete` and `Map.set`
abbrev pub remove : String → List String → List String
remove id ids = keep (λ i. not (i == id)) ids

abbrev pub insert : String → List String → List String
insert id ids = if includes ids id then ids else ids ++ id ∷ []

pub handle_connection : String → Gateway → Gateway
handle_connection client g = record g { increments = suc g.increments }

pub handle_disconnect : String → Gateway → Gateway
handle_disconnect client g = record g {
  connected_clients = remove client g.connected_clients;
  decrements = suc g.decrements;
  calls = elim (g.users client) [
    | none ↦ g.calls
    | some user ↦ g.calls ++ emit (in_room "lobby") (user_left user) ∷ []
  ];
}

-- The guard: `verified` is what the configuration and the JWT library make of the token.
pub ws_can_activate : Option String → Result WsUser → String → Exec Gateway (Unit {0})
ws_can_activate token verified client =
    if truthy? token
    then elim verified [
      | throw e ↦ raise (error "Unauthorized: Invalid token")
      | ok user ↦
          modify (λ g. record g { users = λ i. if i == client then some user else g.users i })
    ]
    else raise (error "Unauthorized: No token provided")

-- `@CurrentUser()` reads the user of the socket.
pub handle_authenticate : String → Option WsUser → Exec Gateway Reply
handle_authenticate client none = raise (error "Unauthorized: Missing user context")
handle_authenticate client (some user) = do
  modify (λ g. record g {
    connected_clients = insert client g.connected_clients;
    users = λ i. if i == client then some user else g.users i;
  })
  tell (join client "lobby")
  tell (emit (in_room "lobby") (user_joined user))
  pure (authenticated user)

pub handle_join_room : String → Option WsUser → String → Exec Gateway Reply
handle_join_room client user room =
    if truthy room
    then (do
      tell (join client room)
      tell (emit (in_room room) (user_joined_room room user))
      pure (joined_room room))
    else pure (refused "Room name is required")

pub handle_leave_room : String → Option WsUser → String → Exec Gateway Reply
handle_leave_room client user room =
    if truthy room
    then (do
      tell (leave client room)
      tell (emit (in_room room) (user_left_room room user))
      pure (left_room room))
    else pure (refused "Room name is required")

-- The room of a payload, if it is not empty.
abbrev pub room_of : Option String → Option String
room_of room = if truthy? room then room else none

pub handle_message : Option WsUser → Option String → String → Exec Gateway Reply
handle_message user room text =
    if truthy text
    then (do
      tell (
          emit (elim (room_of room) [ none ↦ everyone | some r ↦ in_room r ])
            (message user text (room_of room)))
      pure message_sent)
    else pure (refused "Message is required")

pub handle_typing : String → Option WsUser → Option String → Bool → Exec Gateway Reply
handle_typing client user room is_typing = do
  tell (
      emit (elim (room_of room) [ none ↦ all_but client | some r ↦ in_room_but r client ])
        (user_typing user is_typing (room_of room)))
  pure no_reply

-- The handler that a message is subscribed to.
pub handle : String → WsMessage → Option WsUser → Exec Gateway Reply
unfolding handle_authenticate handle_join_room handle_leave_room handle_message handle_typing
handle client authenticate user = handle_authenticate client user
handle client (join_room room) user = handle_join_room client user room
handle client (leave_room room) user = handle_leave_room client user room
handle client (send_message room text) user = handle_message user room text
handle client (typing room is_typing) user = handle_typing client user room is_typing

-- A message of a client, through the guard.
pub receive : Option String → Result WsUser → String → WsMessage → Exec Gateway Reply
unfolding ws_can_activate handle
receive token verified client msg = do
  ws_can_activate token verified client
  user ← reads (λ g. ok (g.users client))
  handle client msg user

pub broadcast_to_room : String → String → Gateway → Gateway
broadcast_to_room room event g = record g {
  calls = g.calls ++ emit (in_room room) (custom event) ∷ [];
}

-- The first client of a user, in the order of insertion.
pub client_of : (String → Option WsUser) → String → List String → Option String
client_of users user_id [] = none
client_of users user_id (c ∷ cs) =
    let rest = client_of users user_id cs in
    if elim (users c) [ none ↦ false | some u ↦ u.id == user_id ] then some c else rest

pub send_to_user : String → String → Gateway → Gateway
unfolding client_of
send_to_user user_id event g = elim (client_of g.users user_id g.connected_clients) [
  | none ↦ g
  | some c ↦ record g { calls = g.calls ++ emit (only c) (custom event) ∷ [] }
]

pub get_connected_users_count : Gateway → ℕ
get_connected_users_count g = length g.connected_clients

-- The calls of `gracefulShutdown`; the timer's race follows them.
pub disconnect_all : List String → List SocketCall
disconnect_all [] = []
disconnect_all (c ∷ cs) = disconnect c ∷ disconnect_all cs

pub graceful_shutdown : Gateway → Gateway
unfolding disconnect_all
graceful_shutdown g = record g {
  calls = (g.calls ++ emit everyone server_shutdown ∷ []) ++ disconnect_all g.connected_clients;
}
