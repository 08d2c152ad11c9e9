-- ===== src/Websocket/Operations.antt =====
-- What the operations of the WebSocket client do to the map and to the sockets.
use crypto_con.Base.{
  ℕ, Bytes, Bool, true, false, [], ◌∷◌, ◌++◌, append-nil, append_assoc, map, none, some, ◌≡◌, ◌≢◌,
  ◌↔◌, refl, sym, ap, ◌∙◌, arith, All, Option-cases, Bool-cases, inl, inr, some-injective,
}
use crypto_con.Types.StdMap.{find, text_key}
use crypto_con.World.{World, Env, Connection, OnOpen}
use crypto_con.Exec.{ok}
use crypto_con.Websocket.{
  Connections, new_socket, new_connection, url_of, connect_endpoint, send, is_connected, disconnect,
  disconnect_all, stop_each, connection_count,
}
use crypto_con.Websocket.Changes.{Rehashes, id_of}
use crypto_con.Websocket.Invariant.{IsEntry, IsWellFormed}
use crypto_con.Websocket.Lookup.{All-find, find-assign, find-erase}

-- `connectEndpoint` puts a new started connection under the URL, whether or not there was one, and
-- leaves the connections to other URLs. The client is well-formed, and an insertion only reorders
-- the map.
pub connect_endpoint-find :
    (env : Env) (callback : ℕ) (host path : Bytes) (on_open : OnOpen) (w : World)
    → Rehashes env.sockets
    → IsWellFormed w
    → let (r, w') = connect_endpoint env callback host path on_open w in
      (r ≡ ok tt)
      × (find (url_of host path) w'.ws.connections
          ≡ some (new_connection w.ws.next_id callback (url_of host path) on_open))
      × ((k : Bytes) → k ≢ url_of host path → find k w'.ws.connections ≡ find k w.ws.connections)
      × (w'.ws.pending ≡ none)
unfolding connect_endpoint
connect_endpoint-find env callback host path on_open w r h =
    let url = url_of host path in
    let (found, others) =
      find-assign url (new_connection w.ws.next_id callback url on_open) env.sockets r
        w.ws.connections h.keys in
    (refl, found, others, refl)

-- What `send` returned and sent: true, for one message on the socket of this URL; or false, for none.
abbrev pub Sent : Bytes → Bytes → World → Bool → World → Type 0
Sent url text w true w' =
    (c : Connection) × (find url w.ws.connections ≡ some c)
    × (c.ws ≡ some (new_socket url))
    × (w'.ws.outbox ≡ w.ws.outbox ++ (c.id, text) ∷ [])
Sent url text w false w' = w'.ws.outbox ≡ w.ws.outbox

pub find-IsEntry :
    (w : World) (url : Bytes) (c : Connection)
    → IsWellFormed w
    → find url w.ws.connections ≡ some c
    → IsEntry w.ws.next_id url c
find-IsEntry w url c h found =
    All-find (IsEntry w.ws.next_id) url c w.ws.connections h.entries found

-- On a well-formed client `send` returns true exactly if the URL is in the map and its socket takes
-- the message, which has then gone to the socket of this URL and to no other; if it returns false,
-- nothing was sent. It never throws and leaves the map.
pub send-Sent :
    (env : Env) (url text : Bytes) (w : World)
    → IsWellFormed w
    → let (r, w') = send env url text w in
      (sent : Bool) × (r ≡ ok sent)
      × Sent url text w sent w'
      × (w'.ws.connections ≡ w.ws.connections)
      × ((sent ≡ true)
          ↔ ((find url w.ws.connections ≢ none) × (env.sockets.send w.ws.sends ≡ true)))
unfolding send
send-Sent env url text w h = elim (Option-cases (find url w.ws.connections)) [
  | inl missing ↦ rw (missing) (false, refl, refl, refl, ground arith)
  | inr (c, found) ↦
      let entry = find-IsEntry w url c h found in
      elim (Bool-cases (env.sockets.send w.ws.sends)) [
        | inl taken ↦
            rw (found, entry.socket, taken)
              (true, refl, (c, found, entry.socket, refl), refl, ground arith)
        | inr refused ↦
            rw (found, entry.socket, refused) (false, refl, append-nil _, refl, ground arith)
      ]
]

-- `disconnect` of an endpoint that is not in the map does nothing. Otherwise its socket is stopped,
-- the map has the endpoint no more and keeps all others, and `isConnected` then says no.
disconnect-find :
    (env : Env) (url : Bytes) (w : World)
    → IsWellFormed w
    → let w' = disconnect url w in
      (find url w'.ws.connections ≡ none)
      × ((k : Bytes) → k ≢ url → find k w'.ws.connections ≡ find k w.ws.connections)
      × ((is_connected env url w').0 ≡ ok false)
      × (find url w.ws.connections ≡ none → w' ≡ w)
      × ((c : Connection)
          → find url w.ws.connections ≡ some c
          → w'.ws.stopped ≡ w.ws.stopped ++ c.id ∷ [])
unfolding disconnect is_connected
disconnect-find env url w h = elim (Option-cases (find url w.ws.connections)) [
  | inl missing ↦
      rw (missing)
        (missing, λ k n. refl, rw (missing) refl, λ _. refl, λ c q. absurd (ground arith))
  | inr (c, found) ↦
      let (gone, others) = find-erase url w.ws.connections h.keys in
      let entry = find-IsEntry w url c h found in
      rw (found, entry.socket)
        (
          gone,
          others,
          rw (gone) refl,
          λ q. absurd (ground arith),
          λ d q. ap (λ (x : Connection). w.ws.stopped ++ x.id ∷ []) (some-injective _ d q),
        )
]

stop_each-stopped :
    (n : ℕ) (m : Connections) (w : World)
    → All (λ e. IsEntry n e.0 e.1) m
    → (stop_each m w).ws.stopped ≡ w.ws.stopped ++ map id_of m
stop_each-stopped n [] w h = sym (append-nil _)
stop_each-stopped n ((k, c) ∷ m) w (h, hs) =
    rw (h.socket) (stop_each-stopped n m _ hs ∙ append_assoc w.ws.stopped (c.id ∷ []) (map id_of m))

-- `disconnectAll` of a well-formed client stops the socket of every connection once, in the order of
-- the map, and leaves no connection.
pub disconnect_all-stopped :
    (w : World)
    → IsWellFormed w
    → ((disconnect_all w).ws.stopped ≡ w.ws.stopped ++ map id_of w.ws.connections)
      × (connection_count (disconnect_all w) ≡ 0)
unfolding disconnect_all
disconnect_all-stopped w h = (stop_each-stopped w.ws.next_id w.ws.connections w h.entries, refl)
