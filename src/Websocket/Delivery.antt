-- ===== src/Websocket/Delivery.antt =====
-- Which clients the gateway's calls reach.
use backend_boilerplate.Base.{
  Bool, Bool-cases, Exception, List, Option, Option-cases, Result, String, [], any, arith, error,
  false, includes, inl, inr, refl, some, throw, true, truthy?, ◌++◌, ◌==◌, ◌∷◌, ◌≡◌, ◌⊎◌,
}
use text.Mathlib.TextEquality.{eq_iff}
use backend_boilerplate.Websocket.{
  WsUser, WsMessage, Gateway, SocketCall, emit, only, everyone, custom, disconnect, server_shutdown,
  receive, graceful_shutdown, disconnect_all, client_of, send_to_user,
}

-- Whether a call disconnects a client.
abbrev pub ends : String → SocketCall → Bool
ends c (disconnect d) = d == c
ends c _ = false

disconnect_all-includes :
    (c : String) (ids : List String) → any (ends c) (disconnect_all ids) ≡ includes ids c
unfolding disconnect_all
disconnect_all-includes c [] = refl
disconnect_all-includes c (i ∷ ids) = ground (arith, disconnect_all-includes c ids)

-- A shutdown tells everyone, and then disconnects the registered clients and no other: a socket
-- that is open but has not authenticated stays connected.
pub graceful_shutdown-disconnects :
    (g : Gateway)
    → (rest : List SocketCall) × ((graceful_shutdown g).calls
        ≡ (g.calls ++ emit everyone server_shutdown ∷ []) ++ rest)
      × ((c : String) → any (ends c) rest ≡ includes g.connected_clients c)
unfolding graceful_shutdown
graceful_shutdown-disconnects g =
    (disconnect_all g.connected_clients, refl, (λ c. disconnect_all-includes c g.connected_clients))

-- A message without a token, or with one that is not verified, throws and changes nothing: no user
-- is attached, no room entered and nothing sent, whatever the message.
pub receive_rejected :
    (token : Option String) (verified : Result WsUser) (c : String) (msg : WsMessage) (g : Gateway)
    → (truthy? token ≡ false) ⊎ ((x : Exception) × (verified ≡ throw x))
    → ((receive token verified c msg g).1 ≡ g)
      × ((x : Exception) × ((receive token verified c msg g).0 ≡ throw x))
unfolding receive
receive_rejected token verified c msg g (inl absent) =
    (ground arith, (error "Unauthorized: No token provided", ground arith))
receive_rejected token verified c msg g (inr (x, bad)) = elim (Bool-cases (truthy? token)) [
  | inl given ↦ (ground arith, (error "Unauthorized: Invalid token", ground arith))
  | inr absent ↦ (ground arith, (error "Unauthorized: No token provided", ground arith))
]

client_of-found :
    (users : String → Option WsUser) (user_id : String) (ids : List String) (c : String)
    → client_of users user_id ids ≡ some c
    → (includes ids c ≡ true) × ((u : WsUser) × ((users c ≡ some u) × (u.id ≡ user_id)))
unfolding client_of
client_of-found users user_id [] c e = absurd (ground arith)
client_of-found users user_id (i ∷ ids) c e = elim (Option-cases (users i)) [
  | inl nobody ↦
      let (there, x) = client_of-found users user_id ids c (ground arith) in (ground arith, x)
  | inr (u, known) ↦ elim (Bool-cases (u.id == user_id)) [
    | inl same ↦
        let first : i ≡ c = ground arith in
        (ground (arith, eq_iff i c), (u, (rw first at known, (eq_iff u.id user_id).0 same)))
    | inr other ↦
        let (there, x) = client_of-found users user_id ids c (ground arith) in (ground arith, x)
  ]
]

-- An event for a user is sent to one registered client of that user, or to nobody.
pub send_to_user_lem :
    (g : Gateway) (user_id event : String)
    → (send_to_user user_id event g ≡ g)
      ⊎ ((c : String) × ((includes g.connected_clients c ≡ true)
            × ((u : WsUser) × ((g.users c ≡ some u) × (u.id ≡ user_id)))
            × ((send_to_user user_id event g).calls
                ≡ g.calls ++ emit (only c) (custom event) ∷ [])))
unfolding send_to_user
send_to_user_lem g user_id event =
    elim (Option-cases (client_of g.users user_id g.connected_clients)) [
      | inl nobody ↦ inl (ground arith)
      | inr (c, found) ↦
          let (listed, owner) = client_of-found g.users user_id g.connected_clients c found in
          inr (c, (listed, owner, ground arith))
    ]
