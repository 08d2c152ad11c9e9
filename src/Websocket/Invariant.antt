-- ===== src/Websocket/Invariant.antt =====
-- The WebSocket client's well-formedness, and the steps in which it changes.
use crypto_con.Base.{
  ℕ, ◌<◌, Bytes, [], ◌∷◌, Option, none, some, ◌≡◌, ◌≢◌, refl, arith, All, All-Sublist, Apart,
  Apart-Sublist, Sublistᴰ, Option-cases, Bool-cases, inl, inr,
}
use crypto_con.Types.StdMap.{find, text_key}
use crypto_con.World.{World, Env, Connection, closed}
use crypto_con.Websocket.{
  Connections, new_socket, stop_each, send, send_first, is_connected, disconnect, disconnect_all,
  is_state,
}
use crypto_con.Websocket.Loop.{sweep, wait_turn}
use crypto_con.Websocket.Changes.{
  key_of, id_of, Sublist-refl, Sublist-nil, erase-Sublist, sweep-Sublist,
}

-- A connection of the map: its key is its endpoint, its socket is the started one for this URL, and
-- its id has been given out.
pub record IsEntry (next : ℕ) (k : Bytes) (c : Connection) : Type 0 where
  pub endpoint : c.endpoint ≡ k
  pub socket : c.ws ≡ some (new_socket k)
  pub given_out : c.id < next

-- The connection that is started and not yet in the map.
abbrev pub IsPending : ℕ → Connections → Option Connection → Type 0
IsPending next m none = Unit
IsPending next m (some c) = IsEntry next c.endpoint c × All (λ e. e.1.id ≢ c.id) m

-- No two connections have the same endpoint or are the same object.
pub record IsWellFormed (w : World) : Type 0 where
  pub entries : All (λ e. IsEntry w.ws.next_id e.0 e.1) w.ws.connections
  pub keys : Apart key_of w.ws.connections
  pub ids : Apart id_of w.ws.connections
  pub pending : IsPending w.ws.next_id w.ws.connections w.ws.pending

-- The map loses connections, and nothing else that well-formedness speaks of changes.
pub record Shrinks (w w' : World) : Type 0 where
  pub connections : Sublistᴰ w'.ws.connections w.ws.connections
  pub pending : w'.ws.pending ≡ w.ws.pending
  pub next_id : w'.ws.next_id ≡ w.ws.next_id

IsPending-Shrinks :
    (next : ℕ) (m m' : Connections) (p : Option Connection)
    → Sublistᴰ m' m
    → IsPending next m p
    → IsPending next m' p
IsPending-Shrinks next m m' none s h = tt
IsPending-Shrinks next m m' (some c) s (h, new) = (h, All-Sublist (λ e. e.1.id ≢ c.id) s new)

pub Shrinks-IsWellFormed : (w w' : World) → Shrinks w w' → IsWellFormed w → IsWellFormed w'
Shrinks-IsWellFormed w w' s h = record {
  entries =
      rw (s.next_id) (All-Sublist (λ e. IsEntry w.ws.next_id e.0 e.1) s.connections h.entries);
  keys = Apart-Sublist key_of s.connections h.keys;
  ids = Apart-Sublist id_of s.connections h.ids;
  pending =
      rw (s.next_id, s.pending)
        (IsPending-Shrinks w.ws.next_id w.ws.connections w'.ws.connections w.ws.pending
          s.connections h.pending);
}

-- Nothing changes that well-formedness speaks of.
abbrev pub SameConnections : World → World → Type 0
SameConnections w w' =
    (w'.ws.connections ≡ w.ws.connections)
    × (w'.ws.pending ≡ w.ws.pending)
    × (w'.ws.next_id ≡ w.ws.next_id)

pub SameConnections-Shrinks : (w w' : World) → SameConnections w w' → Shrinks w w'
SameConnections-Shrinks w w' (connections, pending, next_id) = record {
  connections = rw (connections) (Sublist-refl w.ws.connections);
  pending = pending;
  next_id = next_id;
}

pub stop_each-SameConnections : (m : Connections) (w : World) → SameConnections w (stop_each m w)
stop_each-SameConnections [] w = (refl, refl, refl)
stop_each-SameConnections ((k, c) ∷ m) w = elim (Option-cases c.ws) [
  | inl none_there ↦ rw (none_there) (stop_each-SameConnections m w)
  | inr (s, there) ↦ rw (there) (stop_each-SameConnections m _)
]

module _ (env : Env) where
  pub sweep-SameConnections : (m : Connections) (w : World) → SameConnections w (sweep env m w).1
  unfolding sweep
  sweep-SameConnections [] w = (refl, refl, refl)
  sweep-SameConnections ((k, c) ∷ m) w = elim (Option-cases c.ws) [
    | inl none_there ↦ rw (none_there) (sweep-SameConnections m _)
    | inr (s, there) ↦ elim (Bool-cases c.was_open) [
      | inl was ↦ elim (Bool-cases (is_state (env.sockets.ready w.ws.polls c.id) closed)) [
        | inl gone ↦ rw (there, was, gone) (sweep-SameConnections m _)
        | inr stays ↦ rw (there, was, stays) (sweep-SameConnections m _)
      ]
      | inr not_yet ↦ rw (there, not_yet) (sweep-SameConnections m _)
    ]
  ]

  pub send-SameConnections :
      (url text : Bytes) (w : World) → SameConnections w (send env url text w).1
  unfolding send
  send-SameConnections url text w = elim (Option-cases (find url w.ws.connections)) [
    | inl missing ↦ rw (missing) (refl, refl, refl)
    | inr (c, found) ↦ elim (Option-cases c.ws) [
      | inl none_there ↦ rw (found, none_there) (refl, refl, refl)
      | inr (s, there) ↦ rw (found, there) (refl, refl, refl)
    ]
  ]

  pub send_first-SameConnections :
      (text : Bytes) (w : World) → SameConnections w (send_first env text w).1
  unfolding send_first
  send_first-SameConnections text w = ground arith

  pub is_connected-SameConnections :
      (url : Bytes) (w : World) → SameConnections w (is_connected env url w).1
  unfolding is_connected
  is_connected-SameConnections url w = elim (Option-cases (find url w.ws.connections)) [
    | inl missing ↦ rw (missing) (refl, refl, refl)
    | inr (c, found) ↦ elim (Option-cases c.ws) [
      | inl none_there ↦ rw (found, none_there) (refl, refl, refl)
      | inr (s, there) ↦ rw (found, there) (refl, refl, refl)
    ]
  ]

  pub wait_turn-Shrinks : (w : World) → Shrinks w (wait_turn env w)
  unfolding wait_turn
  wait_turn-Shrinks w =
      let (connections, pending, next_id) = sweep-SameConnections w.ws.connections w in
      record {
        connections = sweep-Sublist env w.ws.connections w;
        pending = pending;
        next_id = next_id;
      }

pub disconnect-Shrinks : (url : Bytes) (w : World) → Shrinks w (disconnect url w)
unfolding disconnect
disconnect-Shrinks url w = elim (Option-cases (find url w.ws.connections)) [
  | inl missing ↦ rw (missing) (SameConnections-Shrinks w w (refl, refl, refl))
  | inr (c, found) ↦ elim (Option-cases c.ws) [
    | inl none_there ↦ rw (found, none_there) (SameConnections-Shrinks w w (refl, refl, refl))
    | inr (s, there) ↦
        rw (found, there)
          record {
            connections = erase-Sublist url w.ws.connections;
            pending = refl;
            next_id = refl;
          }
  ]
]

pub disconnect_all-Shrinks : (w : World) → Shrinks w (disconnect_all w)
unfolding disconnect_all
disconnect_all-Shrinks w =
    let (connections, pending, next_id) = stop_each-SameConnections w.ws.connections w in
    record { connections = Sublist-nil w.ws.connections; pending = pending; next_id = next_id }
