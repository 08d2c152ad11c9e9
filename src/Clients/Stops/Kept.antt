-- ===== src/Clients/Stops/Kept.antt =====
-- The steps of a client (src/websocket/client.cpp) stop no socket twice.
use crypto_con.Base.{
  ℕ, ◌+◌, ◌<◌, Bytes, codes, ◌==◌, [], ◌∷◌, ◌++◌, Option, none, some, ◌≡◌, ◌≢◌, refl, subst, arith,
  All-imp, All-Sublist, Bool-cases, Option-cases, inl, inr,
}
use crypto_con.Types.StdMap.{find, text_key}
use crypto_con.World.{
  World, Env, Connection, OnOpen, closed, Thrown, std_exception, other_exception,
}
use crypto_con.Exec.{Exn, Outcome, ok, throw}
use crypto_con.Websocket.{
  Connections, start_connection, insert_pending, send, send_first, is_connected, log_line, is_state,
}
use crypto_con.Websocket.Loop.{sweep, wait_turn}
use crypto_con.Websocket.Events.{
  Message, open_pending, on_message, set_was_open, catch_logged, what, log_caught, call_on, deliver,
}
use crypto_con.Websocket.Changes.{Rehashes, open_each-All, assign-All, sweep-Sublist}
use crypto_con.Websocket.Invariant.{
  IsWellFormed, SameConnections, send-SameConnections, send_first-SameConnections,
  is_connected-SameConnections, sweep-SameConnections,
}
use crypto_con.Websocket.Steps.{
  Step, starting, inserting, message_of, sending, sending_first, asking, disconnecting,
  disconnecting_all, waiting,
}
use crypto_con.Clients.{run_open}
use crypto_con.Clients.Handlers.{run_open-LeaveConnections, run_open-Settles}
use crypto_con.Clients.Stops.{IsRunning, IsRunningPending, StopsOnce, kept-StopsOnce}
use crypto_con.Clients.Stops.Stopping.{disconnect-StopsOnce, disconnect_all-StopsOnce}

-- Nothing is stopped, and the connections are the same.
abbrev StopsNothing : World → World → Type 0
StopsNothing w w' = SameConnections w w' × (w'.ws.stopped ≡ w.ws.stopped)

leaves-StopsOnce : (w w' : World) → StopsNothing w w' → StopsOnce w → StopsOnce w'
leaves-StopsOnce w w' ((connections, pending, next), stopped) h =
    kept-StopsOnce w w' stopped next (rw connections h.running) (rw pending h.pending) h

module _ (env : Env) where
  send-stopped : (url text : Bytes) (w : World) → (send env url text w).1.ws.stopped ≡ w.ws.stopped
  unfolding send
  send-stopped url text w = elim (Option-cases (find url w.ws.connections)) [
    | inl missing ↦ rw (missing) refl
    | inr (c, found) ↦ elim (Option-cases c.ws) [
      | inl none_there ↦ rw (found, none_there) refl
      | inr (s, there) ↦ rw (found, there) refl
    ]
  ]

  send_first-stopped :
      (text : Bytes) (w : World) → (send_first env text w).1.ws.stopped ≡ w.ws.stopped
  unfolding send_first
  send_first-stopped text w = ground arith

  is_connected-stopped :
      (url : Bytes) (w : World) → (is_connected env url w).1.ws.stopped ≡ w.ws.stopped
  unfolding is_connected
  is_connected-stopped url w = elim (Option-cases (find url w.ws.connections)) [
    | inl missing ↦ rw (missing) refl
    | inr (c, found) ↦ elim (Option-cases c.ws) [
      | inl none_there ↦ rw (found, none_there) refl
      | inr (s, there) ↦ rw (found, there) refl
    ]
  ]

  sweep-stopped : (m : Connections) (w : World) → (sweep env m w).1.ws.stopped ≡ w.ws.stopped
  unfolding sweep
  sweep-stopped [] w = refl
  sweep-stopped ((k, c) ∷ m) w = elim (Option-cases c.ws) [
    | inl none_there ↦ rw (none_there) (sweep-stopped m _)
    | inr (s, there) ↦ elim (Bool-cases c.was_open) [
      | inl was ↦ elim (Bool-cases (is_state (env.sockets.ready w.ws.polls c.id) closed)) [
        | inl gone ↦ rw (there, was, gone) (sweep-stopped m _)
        | inr stays ↦ rw (there, was, stays) (sweep-stopped m _)
      ]
      | inr not_yet ↦ rw (there, not_yet) (sweep-stopped m _)
    ]
  ]

  set_was_open-StopsOnce : (id : ℕ) (w : World) → StopsOnce w → StopsOnce (set_was_open id w)
  set_was_open-StopsOnce id w h =
      kept-StopsOnce w _ refl refl
        (open_each-All id (λ e. IsRunning w.ws.stopped e.1.id) (λ k c r. r) w.ws.connections
          h.running)
        (pending w.ws.pending h.pending) h
    where
      pending :
          (p : Option Connection)
          → IsRunningPending w.ws.stopped p
          → IsRunningPending w.ws.stopped (open_pending id p)
      pending none r = tt
      pending (some c) r = elim (Bool-cases (c.id == id)) [
        | inl same ↦ rw same r
        | inr other ↦ rw other r
      ]

  log_caught-StopsOnce :
      (prefix : Bytes) (e : Exn) (m : Option Bytes) (w : World)
      → StopsOnce w
      → StopsOnce (log_caught env prefix e m w).1
  log_caught-StopsOnce prefix e none w h = h
  log_caught-StopsOnce prefix e (some m) w h = leaves-StopsOnce w _ ((refl, refl, refl), refl) h

  caught-StopsOnce :
      (prefix : Bytes) (r : Outcome (Unit {0}) × World)
      → StopsOnce r.1
      → StopsOnce (catch_logged env prefix r).1
  caught-StopsOnce prefix (ok done, w) h = h
  caught-StopsOnce prefix (throw e, w) h = log_caught-StopsOnce prefix e (what env e) w h

  call_on-StopsOnce :
      (c : Connection) (o : Option Thrown) (text : Bytes) (w : World)
      → StopsOnce w
      → StopsOnce (call_on env c o (deliver env c text w)).1
  call_on-StopsOnce c none text w h = leaves-StopsOnce w _ ((refl, refl, refl), refl) h
  call_on-StopsOnce c (some (std_exception m)) text w h =
      leaves-StopsOnce w _ ((refl, refl, refl), refl) h
  call_on-StopsOnce c (some other_exception) text w h =
      leaves-StopsOnce w _ ((refl, refl, refl), refl) h

  on_message-StopsOnce :
      (c : Connection) (m : Message) (w : World)
      → StopsOnce w
      → StopsOnce (on_message env (run_open env) c m w).1
  unfolding on_message
  on_message-StopsOnce c (Message.message text) w h =
      call_on-StopsOnce c (env.sockets.callback c.callback text) text w h
  on_message-StopsOnce c Message.«open» w h =
      let greeted =
        log_line (codes "Websocket connection to " ++ c.endpoint ++ codes " established.")
          (set_was_open c.id w) in
      caught-StopsOnce (codes "Error in on-open handler for " ++ c.endpoint ++ codes ": ")
        (run_open env c.on_open c.endpoint greeted)
        (leaves-StopsOnce (set_was_open c.id w) _
          (
            run_open-LeaveConnections env c.on_open c.endpoint greeted,
            (run_open-Settles env c.on_open c.endpoint greeted).3,
          )
          (set_was_open-StopsOnce c.id w h))
  on_message-StopsOnce c (Message.close code reason) w h =
      leaves-StopsOnce w _ ((refl, refl, refl), refl) h
  on_message-StopsOnce c (Message.error reason) w h =
      leaves-StopsOnce w _ ((refl, refl, refl), refl) h
  on_message-StopsOnce c Message.ping w h = h
  on_message-StopsOnce c Message.pong w h = h
  on_message-StopsOnce c Message.fragment w h = h

  start_connection-StopsOnce :
      (callback : ℕ) (host path : Bytes) (on_open : OnOpen) (w : World)
      → StopsOnce w
      → StopsOnce (start_connection callback host path on_open w)
  start_connection-StopsOnce callback host path on_open w h = record {
    once = h.once;
    given_out =
        All-imp (λ i. i < w.ws.next_id) (λ i. i < w.ws.next_id + 1) (λ i l. omega (arith, l))
          w.ws.stopped h.given_out;
    running = h.running;
    pending =
        All-imp (λ i. i < w.ws.next_id) (λ i. i ≢ w.ws.next_id) (λ i l. omega (arith, l))
          w.ws.stopped h.given_out;
  }

  insert_pending-StopsOnce :
      (w : World) (p : Option Connection)
      → Rehashes env.sockets
      → w.ws.pending ≡ p
      → StopsOnce w
      → StopsOnce (insert_pending env.sockets p w)
  insert_pending-StopsOnce w none r started h = h
  insert_pending-StopsOnce w (some c) r started h =
      let new = subst (IsRunningPending w.ws.stopped) started h.pending in
      kept-StopsOnce w _ refl refl
        (assign-All c.endpoint c env.sockets r (λ e. IsRunning w.ws.stopped e.1.id) new
          w.ws.connections h.running)
        tt h

  wait_turn-StopsOnce : (w : World) → StopsOnce w → StopsOnce (wait_turn env w)
  unfolding wait_turn
  wait_turn-StopsOnce w h =
      let (connections, pending, next) = sweep-SameConnections env w.ws.connections w in
      kept-StopsOnce w _ (sweep-stopped w.ws.connections w) next
        (All-Sublist (λ e. IsRunning w.ws.stopped e.1.id) (sweep-Sublist env w.ws.connections w)
          h.running)
        (rw pending h.pending) h

pub Step-StopsOnce :
    (env : Env) (w w' : World)
    → Rehashes env.sockets
    → Step env (run_open env) w w'
    → IsWellFormed w
    → StopsOnce w
    → StopsOnce w'
Step-StopsOnce env w w' r (starting callback host path on_open idle) i h =
    start_connection-StopsOnce env callback host path on_open w h
Step-StopsOnce env w w' r inserting i h = insert_pending-StopsOnce env w w.ws.pending r refl h
Step-StopsOnce env w w' r (message_of c m live) i h = on_message-StopsOnce env c m w h
Step-StopsOnce env w w' r (sending endpoint text) i h =
    leaves-StopsOnce w _
      (send-SameConnections env endpoint text w, send-stopped env endpoint text w) h
Step-StopsOnce env w w' r (sending_first text) i h =
    leaves-StopsOnce w _ (send_first-SameConnections env text w, send_first-stopped env text w) h
Step-StopsOnce env w w' r (asking endpoint) i h =
    leaves-StopsOnce w _
      (is_connected-SameConnections env endpoint w, is_connected-stopped env endpoint w) h
Step-StopsOnce env w w' r (disconnecting endpoint) i h = disconnect-StopsOnce endpoint w i h
Step-StopsOnce env w w' r disconnecting_all i h = disconnect_all-StopsOnce w i h
Step-StopsOnce env w w' r waiting i h = wait_turn-StopsOnce env w h
