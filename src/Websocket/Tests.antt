-- ===== src/Websocket/Tests.antt =====
-- Two sockets, of which one authenticates.
use backend_boilerplate.Base.{String, [], arith, none, ok, refl, some, ◌∷◌, ◌≡◌}
use backend_boilerplate.Websocket.{
  WsUser, Gateway, emit, in_room, everyone, join, user_joined, receive, graceful_shutdown,
  disconnect_all, send_to_user, client_of, handle_connection, handle_disconnect, authenticate,
  authenticated, message, send_message,
}
use backend_boilerplate.Websocket.Sessions.{
  Session, Reach, WellFormed, connects, disconnects, sends, start, next,
}
use backend_boilerplate.Base.{Result, String}
use backend_boilerplate.Websocket.Interleaved
use backend_boilerplate.Json.{null, str, obj, end}
use backend_boilerplate.Websocket.Handshake.{extract_token}

abbrev ann : WsUser
ann = record { id = "u1"; email = "a@x.org"; role = "USER" }

abbrev gateway : Gateway
gateway = record {
  connected_clients = [];
  users = λ c. none;
  increments = 0;
  decrements = 0;
  calls = [];
}

abbrev empty : Session
empty = record { gateway = gateway; sockets = [] }

empty-WellFormed : WellFormed empty
empty-WellFormed = record {
  distinct = tt;
  distinct_open = tt;
  are_open = λ c h. absurd (ground arith);
  have_user = λ c h. absurd (ground arith);
  gauge = refl;
}

abbrev one : Session
one = record { gateway = handle_connection "s1" gateway; sockets = "s1" ∷ [] }

abbrev two : Session
two = record { gateway = handle_connection "s2" one.gateway; sockets = "s2" ∷ "s1" ∷ [] }

abbrev greeted : Session
greeted = record two { gateway = (receive (some "t") (ok ann) "s1" authenticate two.gateway).1 }

abbrev left : Session
left = record { gateway = handle_disconnect "s1" greeted.gateway; sockets = "s2" ∷ [] }

run : Unit {0}
unfolding receive graceful_shutdown disconnect_all send_to_user client_of handle_connection
    handle_disconnect
run = tt

ws_tests :
    ((receive (some "t") (ok ann) "s1" authenticate two.gateway).0 ≡ ok (authenticated ann))
    × (greeted.gateway.connected_clients ≡ "s1" ∷ [])
    × (greeted.gateway.calls ≡ join "s1" "lobby" ∷ emit (in_room "lobby") (user_joined ann) ∷ [])
    × ((receive (some "t") (ok ann) "s2" (send_message (some "") "hi") gateway).1.calls
        ≡ emit everyone (message (some ann) "hi" none) ∷ [])
    × (left.gateway.connected_clients ≡ [])
unfolding run
ws_tests = (refl, refl, refl, refl, refl)

walk : Reach empty left
walk =
    next
      (next (next (next start (connects empty "s1" refl)) (connects one "s2" refl))
        (sends two "s1" (some "t") (ok ann) authenticate refl))
      (disconnects greeted "s1" refl)

-- The token of the handshake is the user's id.
abbrev verified : String → Result WsUser
verified t = ok (record ann { id = t })

handshake_tests :
    (extract_token (record { auth = none; authorization = some (str "abc"); query_token = none })
      ≡ some "abc")
    × (extract_token (record {
      auth = some (obj end);
      authorization = none;
      query_token = some (str "Bearer q");
    })
        ≡ some "Bearer q")
    × (extract_token (record { auth = none; authorization = none; query_token = some null }) ≡ none)
unfolding extract_token
handshake_tests = (refl, refl, refl)

-- The socket ends while its token is verified.
abbrev slow : Interleaved.Pending
slow = record { client = "s1"; token = some "t"; verified = ok ann; msg = authenticate }

abbrev fresh : Interleaved.Live
fresh = record { gateway = gateway; sockets = []; used = []; pending = [] }

fresh-WellFormed : Interleaved.WellFormed fresh
fresh-WellFormed = record {
  distinct = tt;
  distinct_open = tt;
  were_open = λ c h. absurd (ground arith);
  opened = λ c h. absurd (ground arith);
  waiting = tt;
  have_user = λ c h. absurd (ground arith);
  gauge = refl;
}

abbrev opened : Interleaved.Live
opened = record fresh {
  gateway = handle_connection "s1" gateway;
  sockets = "s1" ∷ [];
  used = "s1" ∷ [];
}

abbrev asked : Interleaved.Live
asked = record opened { pending = slow ∷ [] }

abbrev ended : Interleaved.Live
ended = record asked { gateway = handle_disconnect "s1" asked.gateway; sockets = [] }

to_ended : Interleaved.Reach fresh ended
to_ended =
    Interleaved.next
      (Interleaved.next (Interleaved.next Interleaved.start (Interleaved.connects fresh "s1" refl))
        (Interleaved.arrives opened slow refl))
      (Interleaved.disconnects asked "s1" refl)

interleaved-WellFormed_example : Interleaved.WellFormed ended
interleaved-WellFormed_example = Interleaved.interleaved-WellFormed fresh-WellFormed to_ended

late_authenticate-Leaked_example : Interleaved.Leaked "s1" (Interleaved.settled ended slow [])
late_authenticate-Leaked_example =
    Interleaved.late_authenticate-Leaked "s1" "t" ann [] refl
      (Interleaved.interleaved-WellFormed fresh-WellFormed to_ended) Interleaved.here refl
      Interleaved.start
