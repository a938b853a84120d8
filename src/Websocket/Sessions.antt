-- ===== src/Websocket/Sessions.antt =====
-- The life of the sockets: what holds of the gateway however they come and go. A message is handled
-- before its socket ends; the guard's await is not interleaved with that.
use backend_boilerplate.Base.{
  ==-refl, Bool-cases, List, Option, Result, String, arith, false, includes, inl, inr, length, none,
  ok, refl, some, throw, true, truthy, ◌+◌, ◌∷◌, ◌≡◌, ◌≢◌, ◌⊎◌,
}
use text.Mathlib.TextEquality.{eq_iff}
use backend_boilerplate.Websocket.{
  WsUser, WsMessage, Gateway, remove, insert, handle_connection, handle_disconnect, receive,
  authenticate, join_room, leave_room, send_message, typing,
}
use backend_boilerplate.Websocket.Registry.{
  Distinct, includes-remove, Distinct-remove, length-remove, Distinct-insert, includes-insert,
}

-- The gateway with the sockets that are open.
pub record Session : Type 0 where
  pub gateway : Gateway
  pub sockets : List String

-- socket.io gives every connection an id of its own, and reports its end once.
pub data Step : Session → Session → Type 0 where
  connects :
      (s : Session) (c : String)
      → includes s.sockets c ≡ false
      → Step s (record { gateway = handle_connection c s.gateway; sockets = c ∷ s.sockets })
  disconnects :
      (s : Session) (c : String)
      → includes s.sockets c ≡ true
      → Step s (record { gateway = handle_disconnect c s.gateway; sockets = remove c s.sockets })
  sends :
      (s : Session) (c : String) (token : Option String) (verified : Result WsUser)
      (msg : WsMessage)
      → includes s.sockets c ≡ true
      → Step s (record s { gateway = (receive token verified c msg s.gateway).1 })

pub data Reach (s : Session) : Session → Type 0 where
  start : Reach s s
  next : {t u : Session} → Reach s t → Step t u → Reach s u

-- The registered clients are distinct open sockets with a user, and the gauge counts the open ones.
pub record WellFormed (s : Session) : Type 0 where
  pub distinct : Distinct s.gateway.connected_clients
  pub distinct_open : Distinct s.sockets
  pub are_open :
      (c : String) → includes s.gateway.connected_clients c ≡ true → includes s.sockets c ≡ true
  pub have_user :
      (c : String) → includes s.gateway.connected_clients c ≡ true → s.gateway.users c ≢ none
  pub gauge : s.gateway.increments ≡ s.gateway.decrements + length s.sockets

-- What a message does to the registered clients.
abbrev pub Kept : String → Gateway → Gateway → Type 0
Kept c g g' =
    (g'.increments ≡ g.increments)
    × (g'.decrements ≡ g.decrements)
    × ((i : String) → g.users i ≢ none → g'.users i ≢ none)
    × ((g'.connected_clients ≡ g.connected_clients)
        ⊎ ((g'.connected_clients ≡ insert c g.connected_clients) × (g'.users c ≢ none)))

pub receive-Kept :
    (token : Option String) (verified : Result WsUser) (c : String) (msg : WsMessage) (g : Gateway)
    → Kept c g (receive token verified c msg g).1
unfolding receive
receive-Kept none verified c msg g = (refl, refl, (λ i h. h), inl refl)
receive-Kept (some t) (throw e) c msg g =
    (ground arith, ground arith, (λ i h. ground arith), ground arith)
receive-Kept (some t) (ok u) c authenticate g = (
  ground arith,
  ground arith,
  (λ i h. ground arith),
  elim (Bool-cases (truthy t)) [
    | inr empty ↦ inl (ground arith)
    | inl given ↦ inr (ground (arith, ==-refl c), ground (arith, ==-refl c))
  ],
)
receive-Kept (some t) (ok u) c (join_room room) g =
    (ground arith, ground arith, (λ i h. ground arith), ground arith)
receive-Kept (some t) (ok u) c (leave_room room) g =
    (ground arith, ground arith, (λ i h. ground arith), ground arith)
receive-Kept (some t) (ok u) c (send_message room text) g =
    (ground arith, ground arith, (λ i h. ground arith), ground arith)
receive-Kept (some t) (ok u) c (typing room b) g =
    (ground arith, ground arith, (λ i h. ground arith), ground arith)

insert-sockets :
    (s : Session) (c : String) (g : Gateway)
    → WellFormed s
    → includes s.sockets c ≡ true
    → Kept c s.gateway g
    → g.connected_clients ≡ insert c s.gateway.connected_clients
    → g.users c ≢ none
    → WellFormed (record s { gateway = g })
insert-sockets s c g w present (up, down, users, _) inserted known = record {
  distinct = rw inserted (Distinct-insert c s.gateway.connected_clients w.distinct);
  distinct_open = w.distinct_open;
  are_open = λ x h.
      ground (arith, includes-insert c x s.gateway.connected_clients, w.are_open x, eq_iff c x);
  have_user = λ x h. elim (Bool-cases (includes s.gateway.connected_clients x)) [
    | inl old ↦ users x (w.have_user x old)
    | inr new ↦ ground (arith, includes-insert c x s.gateway.connected_clients, eq_iff c x)
  ];
  gauge = ground (arith, w.gauge);
}

receive-WellFormed :
    (s : Session) (c : String) (g : Gateway)
    → WellFormed s
    → includes s.sockets c ≡ true
    → Kept c s.gateway g
    → WellFormed (record s { gateway = g })
receive-WellFormed s c g w present (up, down, users, inr (inserted, known)) =
    insert-sockets s c g w present (up, down, users, inr (inserted, known)) inserted known
receive-WellFormed s c g w present (up, down, users, inl same) = record {
  distinct = rw same w.distinct;
  distinct_open = w.distinct_open;
  are_open = λ x h. w.are_open x (rw same at h);
  have_user = λ x h. users x (w.have_user x (rw same at h));
  gauge = ground (arith, w.gauge);
}

step-WellFormed : {s t : Session} → WellFormed s → Step s t → WellFormed t
unfolding handle_connection handle_disconnect
step-WellFormed w (connects s c new) = record {
  distinct = w.distinct;
  distinct_open = (new, w.distinct_open);
  are_open = λ x h. ground (arith, w.are_open x h);
  have_user = w.have_user;
  gauge = omega (arith, w.gauge);
}
step-WellFormed w (disconnects s c present) = record {
  distinct = Distinct-remove c s.gateway.connected_clients w.distinct;
  distinct_open = Distinct-remove c s.sockets w.distinct_open;
  are_open = λ x h. ground (
    arith,
    w.are_open x,
    includes-remove c x s.gateway.connected_clients,
    includes-remove c x s.sockets,
  );
  have_user =
      λ x h. w.have_user x (ground (arith, includes-remove c x s.gateway.connected_clients));
  gauge = omega (arith, w.gauge, length-remove c s.sockets w.distinct_open present);
}
step-WellFormed w (sends s c token verified msg present) =
    receive-WellFormed s c (receive token verified c msg s.gateway).1 w present
      (receive-Kept token verified c msg s.gateway)

-- However sockets connect, end and send messages, with whatever tokens, the registered clients stay
-- distinct open sockets that have a user, and the gauge is the number of open sockets.
pub reach-WellFormed : {s t : Session} → WellFormed s → Reach s t → WellFormed t
reach-WellFormed w start = w
reach-WellFormed w (next r step) = step-WellFormed (reach-WellFormed w r) step
