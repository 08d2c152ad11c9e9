-- ===== src/Clients/Stops/Stopping.antt =====
-- `disconnect` and `disconnectAll` of src/websocket/client.cpp stop only sockets that run.
use crypto_con.Base.{
  ℕ, ◌<◌, Bytes, List, [], ◌∷◌, ◌++◌, map, Option, none, some, ◌≡◌, ◌≢◌, refl, All, All-append,
  All-imp, All-Sublist, Apart, Option-cases, inl, inr,
}
use crypto_con.Types.StdMap.{find, text_key}
use crypto_con.World.{World, Connection}
use crypto_con.Websocket.{Connections, erase, disconnect, disconnect_all}
use crypto_con.Websocket.Changes.{id_of, erase-Sublist}
use crypto_con.Websocket.Invariant.{IsEntry, IsPending, IsWellFormed, stop_each-SameConnections}
use crypto_con.Websocket.Operations.{find-IsEntry, disconnect_all-stopped}
use crypto_con.Websocket.Lookup.{All-find}
use crypto_con.Clients.Stops.{IsRunning, IsRunningPending, StopsOnce, erase_others, stops-StopsOnce}

-- What is left in the map differs from the stopped connection too.
left-IsRunning :
    (l : List ℕ) (x : ℕ) (m : Connections)
    → All (λ e. x ≢ e.1.id) m
    → All (λ e. IsRunning l e.1.id) m
    → All (λ e. IsRunning (l ++ x ∷ []) e.1.id) m
left-IsRunning l x [] n h = tt
left-IsRunning l x ((k, c) ∷ m) (n, ns) (h, hs) =
    (All-append (λ i. i ≢ c.id) l (x ∷ []) h (n, tt), left-IsRunning l x m ns hs)

pending_other :
    (next : ℕ) (url : Bytes) (c : Connection) (m : Connections) (p : Option Connection)
    → IsPending next m p
    → find url m ≡ some c
    → IsRunningPending (c.id ∷ []) p
pending_other next url c m none h found = tt
pending_other next url c m (some d) (i, new) found =
    (All-find (λ k x. x.id ≢ d.id) url c m new found, tt)

pub disconnect-StopsOnce :
    (url : Bytes) (w : World) → IsWellFormed w → StopsOnce w → StopsOnce (disconnect url w)
unfolding disconnect
disconnect-StopsOnce url w i h = elim (Option-cases (find url w.ws.connections)) [
  | inl missing ↦ rw (missing) h
  | inr (c, found) ↦
      let entry = find-IsEntry w url c i found in
      rw (found, entry.socket)
        (stops-StopsOnce (c.id ∷ []) w _ (refl, refl, refl) (tt, tt)
          (All-find (λ k x. IsRunning w.ws.stopped x.id) url c w.ws.connections h.running found, tt)
          (entry.given_out, tt)
          (left-IsRunning w.ws.stopped c.id (erase url w.ws.connections)
            (erase_others url c w.ws.connections found i.ids)
            (All-Sublist (λ e. IsRunning w.ws.stopped e.1.id) (erase-Sublist url w.ws.connections)
              h.running))
          (pending_other w.ws.next_id url c w.ws.connections w.ws.pending i.pending found) h)
]

map-All :
    {A B : Type 0} (f : A → B) (P : B → Type 0) (l : List A)
    → All (λ a. P (f a)) l
    → All P (map f l)
map-All f P [] h = tt
map-All f P (x ∷ l) (h, hs) = (h, map-All f P l hs)

map-Apart : (m : Connections) → Apart id_of m → Apart (λ (i : ℕ). i) (map id_of m)
map-Apart [] h = tt
map-Apart (e ∷ m) (h, hs) = (map-All id_of (λ i. i ≢ e.1.id) m h, map-Apart m hs)

pending_apart :
    (next : ℕ) (m : Connections) (p : Option Connection)
    → IsPending next m p
    → IsRunningPending (map id_of m) p
pending_apart next m none h = tt
pending_apart next m (some d) (i, new) = map-All id_of (λ i. i ≢ d.id) m new

pub disconnect_all-StopsOnce :
    (w : World) → IsWellFormed w → StopsOnce w → StopsOnce (disconnect_all w)
unfolding disconnect_all
disconnect_all-StopsOnce w i h =
    let (_, pending, next) = stop_each-SameConnections w.ws.connections w in
    stops-StopsOnce (map id_of w.ws.connections) w _ ((disconnect_all-stopped w i).0, next, pending)
      (map-Apart w.ws.connections i.ids)
      (map-All id_of (IsRunning w.ws.stopped) w.ws.connections h.running)
      (map-All id_of (λ j. j < w.ws.next_id) w.ws.connections
        (All-imp (λ e. IsEntry w.ws.next_id e.0 e.1) (λ e. e.1.id < w.ws.next_id)
          (λ e n. n.given_out) w.ws.connections i.entries))
      tt (pending_apart w.ws.next_id w.ws.connections w.ws.pending i.pending) h
