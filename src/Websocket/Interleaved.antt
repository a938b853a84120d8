-- ===== src/Websocket/Interleaved.antt =====
-- The life of the sockets where the guard's await is split off: while a message's token is verified,
-- other messages arrive and sockets end, its own among them; the handler of a message runs also after
-- the end of its socket.
use backend_boilerplate.Base.{
  ==-refl, All, Bool-cases, List, Option, Result, String, [], arith, false, includes, inl, inr,
  length, none, ok, some, true, truthy, ◌+◌, ◌∷◌, ◌≡◌, ◌≢◌,
}
use text.Mathlib.TextEquality.{eq_iff}
use backend_boilerplate.Websocket.{
  WsUser, WsMessage, Gateway, remove, handle_connection, handle_disconnect, receive, authenticate,
}
use backend_boilerplate.Websocket.Registry.{
  Distinct, includes-remove, Distinct-remove, length-remove, Distinct-insert, includes-insert,
}
use backend_boilerplate.Websocket.Sessions.{Kept, receive-Kept}

-- A message whose guard waits, with what the verification of its token will give.
pub record Pending : Type 0 where
  pub client : String
  pub token : Option String
  pub verified : Result WsUser
  pub msg : WsMessage

-- One of the pending messages, whichever is verified first, with the others.
pub data Take (p : Pending) : List Pending → List Pending → Type 0 where
  here : {ps : List Pending} → Take p (p ∷ ps) ps
  there : {q : Pending} {ps rest : List Pending} → Take p ps rest → Take p (q ∷ ps) (q ∷ rest)

-- `used` are the ids of all sockets so far.
pub record Live : Type 0 where
  pub gateway : Gateway
  pub sockets : List String
  pub used : List String
  pub pending : List Pending

abbrev pub settled : Live → Pending → List Pending → Live
settled s p rest = record s {
  gateway = (receive p.token p.verified p.client p.msg s.gateway).1;
  pending = rest;
}

pub data Step : Live → Live → Type 0 where
  connects :
      (s : Live) (c : String)
      → includes s.used c ≡ false
      → Step s (record s {
        gateway = handle_connection c s.gateway;
        sockets = c ∷ s.sockets;
        used = c ∷ s.used;
      })
  disconnects :
      (s : Live) (c : String)
      → includes s.sockets c ≡ true
      → Step s (record s { gateway = handle_disconnect c s.gateway; sockets = remove c s.sockets })
  arrives :
      (s : Live) (p : Pending)
      → includes s.sockets p.client ≡ true
      → Step s (record s { pending = p ∷ s.pending })
  settles :
      (s : Live) (p : Pending) (rest : List Pending)
      → Take p s.pending rest
      → Step s (settled s p rest)

pub data Reach (s : Live) : Live → Type 0 where
  start : Reach s s
  next : {t u : Live} → Reach s t → Step t u → Reach s u

abbrev pub Known : List String → Pending → Type 0
Known used p = includes used p.client ≡ true

-- The registered clients are distinct and have a user, and the gauge counts the open sockets. What is
-- registered or waits belongs to a socket that is open or once was.
pub record WellFormed (s : Live) : Type 0 where
  pub distinct : Distinct s.gateway.connected_clients
  pub distinct_open : Distinct s.sockets
  pub were_open :
      (c : String) → includes s.gateway.connected_clients c ≡ true → includes s.used c ≡ true
  pub opened : (c : String) → includes s.sockets c ≡ true → includes s.used c ≡ true
  pub waiting : All (Known s.used) s.pending
  pub have_user :
      (c : String) → includes s.gateway.connected_clients c ≡ true → s.gateway.users c ≢ none
  pub gauge : s.gateway.increments ≡ s.gateway.decrements + length s.sockets

All-Take :
    (P : Pending → Type 0) {p : Pending} {ps rest : List Pending}
    → Take p ps rest
    → All P ps
    → P p × All P rest
All-Take P here (h, hs) = (h, hs)
All-Take P (there t) (h, hs) = let (a, b) = All-Take P t hs in (a, (h, b))

Known-more :
    (c : String) (used : List String) (ps : List Pending)
    → All (Known used) ps
    → All (Known (c ∷ used)) ps
Known-more c used [] h = tt
Known-more c used (p ∷ ps) (h, hs) = (ground arith, Known-more c used ps hs)

register :
    (s : Live) (p : Pending) (rest : List Pending) (g : Gateway)
    → WellFormed s
    → Known s.used p
    → All (Known s.used) rest
    → Kept p.client s.gateway g
    → WellFormed (record s { gateway = g; pending = rest })
register s p rest g w known others (up, down, users, inl same) = record {
  distinct = rw same w.distinct;
  distinct_open = w.distinct_open;
  were_open = λ x h. w.were_open x (rw same at h);
  opened = w.opened;
  waiting = others;
  have_user = λ x h. users x (w.have_user x (rw same at h));
  gauge = ground (arith, w.gauge);
}
register s p rest g w known others (up, down, users, inr (inserted, user)) = record {
  distinct = rw inserted (Distinct-insert p.client s.gateway.connected_clients w.distinct);
  distinct_open = w.distinct_open;
  were_open = λ x h. ground (
    arith,
    includes-insert p.client x s.gateway.connected_clients,
    w.were_open x,
    eq_iff p.client x,
  );
  opened = w.opened;
  waiting = others;
  have_user = λ x h. elim (Bool-cases (includes s.gateway.connected_clients x)) [
    | inl old ↦ users x (w.have_user x old)
    | inr new ↦
        ground (arith, includes-insert p.client x s.gateway.connected_clients, eq_iff p.client x)
  ];
  gauge = ground (arith, w.gauge);
}

step-WellFormed : {s t : Live} → WellFormed s → Step s t → WellFormed t
unfolding handle_connection handle_disconnect
step-WellFormed w (connects s c new) = record {
  distinct = w.distinct;
  distinct_open = (ground (arith, w.opened c), w.distinct_open);
  were_open = λ x h. ground (arith, w.were_open x h);
  opened = λ x h. ground (arith, w.opened x);
  waiting = Known-more c s.used s.pending w.waiting;
  have_user = w.have_user;
  gauge = omega (arith, w.gauge);
}
step-WellFormed w (disconnects s c present) = record {
  distinct = Distinct-remove c s.gateway.connected_clients w.distinct;
  distinct_open = Distinct-remove c s.sockets w.distinct_open;
  were_open = λ x h. ground (arith, w.were_open x, includes-remove c x s.gateway.connected_clients);
  opened = λ x h. ground (arith, w.opened x, includes-remove c x s.sockets);
  waiting = w.waiting;
  have_user =
      λ x h. w.have_user x (ground (arith, includes-remove c x s.gateway.connected_clients));
  gauge = omega (arith, w.gauge, length-remove c s.sockets w.distinct_open present);
}
step-WellFormed w (arrives s p present) = record {
  distinct = w.distinct;
  distinct_open = w.distinct_open;
  were_open = w.were_open;
  opened = w.opened;
  waiting = (w.opened p.client present, w.waiting);
  have_user = w.have_user;
  gauge = w.gauge;
}
step-WellFormed w (settles s p rest taken) =
    let (known, others) = All-Take (Known s.used) taken w.waiting in
    register s p rest (receive p.token p.verified p.client p.msg s.gateway).1 w known others
      (receive-Kept p.token p.verified p.client p.msg s.gateway)

-- Whatever the order in which tokens are verified and sockets end, the registered clients stay
-- distinct and have a user, each is a socket that is or was open, and the gauge is the number of open
-- sockets.
pub interleaved-WellFormed : {s t : Live} → WellFormed s → Reach s t → WellFormed t
interleaved-WellFormed w start = w
interleaved-WellFormed w (next r step) = step-WellFormed (interleaved-WellFormed w r) step

-- Registered, though the socket has ended.
abbrev pub Leaked : String → Live → Type 0
Leaked c s =
    (includes s.gateway.connected_clients c ≡ true)
    × (includes s.sockets c ≡ false)
    × (includes s.used c ≡ true)

Kept-registered :
    (c i : String) (g g' : Gateway)
    → Kept c g g'
    → includes g.connected_clients i ≡ true
    → includes g'.connected_clients i ≡ true
Kept-registered c i g g' (up, down, users, inl same) h = rw same h
Kept-registered c i g g' (up, down, users, inr (inserted, known)) h =
    rw inserted (ground (arith, includes-insert c i g.connected_clients))

step-Leaked : (c : String) {s t : Live} → Leaked c s → Step s t → Leaked c t
unfolding handle_connection handle_disconnect
step-Leaked c (a, b, d) (connects s x new) = (a, ground (arith, eq_iff x c), ground arith)
step-Leaked c (a, b, d) (disconnects s x present) = (
  ground (arith, includes-remove x c s.gateway.connected_clients, eq_iff c x),
  ground (arith, includes-remove x c s.sockets),
  d,
)
step-Leaked c (a, b, d) (arrives s p present) = (a, b, d)
step-Leaked c (a, b, d) (settles s p rest taken) = (
  Kept-registered p.client c s.gateway (receive p.token p.verified p.client p.msg s.gateway).1
      (receive-Kept p.token p.verified p.client p.msg s.gateway) a,
  b,
  d,
)

reach-Leaked : (c : String) {s t : Live} → Leaked c s → Reach s t → Leaked c t
reach-Leaked c h start = h
reach-Leaked c h (next r step) = step-Leaked c (reach-Leaked c h r) step

registered :
    (c t : String) (u : WsUser) (g : Gateway)
    → truthy t ≡ true
    → includes (receive (some t) (ok u) c authenticate g).1.connected_clients c ≡ true
unfolding receive
registered c t u g given = ground (arith, includes-insert c c g.connected_clients, ==-refl c)

-- If the token of a socket's `authenticate` is verified after the socket has ended, the client is
-- registered all the same, and stays so for good: no later event removes it.
pub late_authenticate-Leaked :
    {s t : Live} (c token : String) (u : WsUser) (rest : List Pending)
    → truthy token ≡ true
    → WellFormed s
    → Take
        (record { client = c; token = some token; verified = ok u; msg = authenticate })
        s.pending
        rest
    → includes s.sockets c ≡ false
    → Reach
        (settled s
          (record { client = c; token = some token; verified = ok u; msg = authenticate })
          rest)
        t
    → Leaked c t
late_authenticate-Leaked {s} c token u rest given w taken closed r =
    reach-Leaked c
      (registered c token u s.gateway given, closed, (All-Take (Known s.used) taken w.waiting).0) r
