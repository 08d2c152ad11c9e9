-- ===== src/Websocket/Steps.antt =====
-- The steps of the WebSocket client and of the threads of its sockets.
use crypto_con.Base.{
  ℕ, ◌+◌, Bytes, Option, none, some, ◌≡◌, ◌≢◌, refl, arith, All, All-imp, Bool-cases, inl, inr,
  ◌==◌, ◌⊎◌, subst, codes, ◌++◌,
}
use crypto_con.Types.StdMap.{find, text_key}
use crypto_con.World.{World, Env, Connection, OnOpen, Thrown, std_exception, other_exception}
use crypto_con.Exec.{Exec, Exn, Outcome, ok, throw}
use crypto_con.Websocket.{
  Connections, start_connection, insert_connection, send, send_first, is_connected, disconnect,
  disconnect_all, log_line, insert_pending,
}
use crypto_con.Websocket.Loop.{wait_turn}
use crypto_con.Websocket.Events.{
  Message, open_each, open_pending, on_message, set_was_open, catch_logged, what, log_caught,
  call_on, deliver,
}
use crypto_con.Websocket.Changes.{
  Rehashes, key_of, id_of, open_each-All, open_each-Apart, assign-All, assign-Apart,
}
use crypto_con.Websocket.Invariant.{
  IsEntry, IsPending, IsWellFormed, SameConnections, SameConnections-Shrinks, Shrinks-IsWellFormed,
  send-SameConnections, send_first-SameConnections, is_connected-SameConnections, wait_turn-Shrinks,
  disconnect-Shrinks, disconnect_all-Shrinks,
}

pub by_same : (w w' : World) → SameConnections w w' → IsWellFormed w → IsWellFormed w'
by_same w w' s h = Shrinks-IsWellFormed w w' (SameConnections-Shrinks w w' s) h

later : (n : ℕ) (k : Bytes) (c : Connection) → IsEntry n k c → IsEntry (n + 1) k c
later n k c h = record {
  endpoint = h.endpoint;
  socket = h.socket;
  given_out = omega (arith, h.given_out);
}

fresh : (n : ℕ) (m : Connections) → All (λ e. IsEntry n e.0 e.1) m → All (λ e. e.1.id ≢ n) m
fresh n m h =
    All-imp (λ e. IsEntry n e.0 e.1) (λ e. e.1.id ≢ n) (λ e i. omega (arith, i.given_out)) m h

pub start_connection-IsWellFormed :
    (callback : ℕ) (host path : Bytes) (on_open : OnOpen) (w : World)
    → IsWellFormed w
    → IsWellFormed (start_connection callback host path on_open w)
start_connection-IsWellFormed callback host path on_open w h = record {
  entries =
      All-imp (λ e. IsEntry w.ws.next_id e.0 e.1) (λ e. IsEntry (w.ws.next_id + 1) e.0 e.1)
        (λ e. later w.ws.next_id e.0 e.1) w.ws.connections h.entries;
  keys = h.keys;
  ids = h.ids;
  pending = (
    record { endpoint = refl; socket = refl; given_out = omega arith },
    fresh w.ws.next_id w.ws.connections h.entries,
  );
}

pub insert_pending-IsWellFormed :
    (env : Env) (w : World) (p : Option Connection)
    → Rehashes env.sockets
    → w.ws.pending ≡ p
    → IsWellFormed w
    → IsWellFormed (insert_pending env.sockets p w)
insert_pending-IsWellFormed env w none r started h = h
insert_pending-IsWellFormed env w (some c) r started h =
    let (entry, new) = subst (IsPending w.ws.next_id w.ws.connections) started h.pending in
    let apart = assign-Apart c.endpoint c env.sockets r w.ws.connections new (h.keys, h.ids) in
    record {
      entries =
          assign-All c.endpoint c env.sockets r (λ e. IsEntry w.ws.next_id e.0 e.1) entry
            w.ws.connections h.entries;
      keys = apart.0;
      ids = apart.1;
      pending = tt;
    }

open_pending-IsPending :
    (id next : ℕ) (m : Connections) (p : Option Connection)
    → IsPending next m p
    → IsPending next (open_each id m) (open_pending id p)
open_pending-IsPending id next m none h = tt
open_pending-IsPending id next m (some c) (i, new) =
    let others = open_each-All id (λ e. e.1.id ≢ c.id) (λ k d n. n) m new in
    elim (Bool-cases (c.id == id)) [
      | inl same ↦
          rw (same) (record { endpoint = refl; socket = i.socket; given_out = i.given_out }, others)
      | inr other ↦ rw (other) (i, others)
    ]

pub set_was_open-IsWellFormed :
    (id : ℕ) (w : World) → IsWellFormed w → IsWellFormed (set_was_open id w)
set_was_open-IsWellFormed id w h = record {
  entries =
      open_each-All id (λ e. IsEntry w.ws.next_id e.0 e.1)
        (λ k c i. record { endpoint = i.endpoint; socket = i.socket; given_out = i.given_out })
        w.ws.connections h.entries;
  keys = open_each-Apart id key_of (λ k c. refl) w.ws.connections h.keys;
  ids = open_each-Apart id id_of (λ k c. refl) w.ws.connections h.ids;
  pending = open_pending-IsPending id w.ws.next_id w.ws.connections w.ws.pending h.pending;
}

-- The connection is in the map, or about to be.
abbrev pub IsLive : Connection → World → Type 0
IsLive c w = (find c.endpoint w.ws.connections ≡ some c) ⊎ (w.ws.pending ≡ some c)

abbrev Handlers : Type 0
Handlers = OnOpen → Bytes → Exec (Unit {0})

-- The on-open handlers open and close no connection.
abbrev pub LeaveConnections : Handlers → Type 0
LeaveConnections run = (o : OnOpen) (url : Bytes) (w : World) → SameConnections w (run o url w).1

log_caught-SameConnections :
    (env : Env) (prefix : Bytes) (e : Exn) (m : Option Bytes) (w : World)
    → SameConnections w (log_caught env prefix e m w).1
log_caught-SameConnections env prefix e none w = (refl, refl, refl)
log_caught-SameConnections env prefix e (some m) w = (refl, refl, refl)

caught-IsWellFormed :
    (env : Env) (prefix : Bytes) (r : Outcome (Unit {0}) × World)
    → IsWellFormed r.1
    → IsWellFormed (catch_logged env prefix r).1
caught-IsWellFormed env prefix (ok done, w) h = h
caught-IsWellFormed env prefix (throw e, w) h =
    by_same w _ (log_caught-SameConnections env prefix e (what env e) w) h

call_on-SameConnections :
    (env : Env) (c : Connection) (o : Option Thrown) (text : Bytes) (w : World)
    → SameConnections w (call_on env c o (deliver env c text w)).1
call_on-SameConnections env c none text w = (refl, refl, refl)
call_on-SameConnections env c (some (std_exception m)) text w = (refl, refl, refl)
call_on-SameConnections env c (some other_exception) text w = (refl, refl, refl)

pub on_message-IsWellFormed :
    (env : Env) (run : Handlers)
    → LeaveConnections run
    → (c : Connection) (m : Message) (w : World) → IsWellFormed w
    → IsWellFormed (on_message env run c m w).1
unfolding on_message
on_message-IsWellFormed env run leave c (Message.message text) w h =
    by_same w _ (call_on-SameConnections env c (env.sockets.callback c.callback text) text w) h
on_message-IsWellFormed env run leave c Message.«open» w h =
    let greeted =
      log_line (codes "Websocket connection to " ++ c.endpoint ++ codes " established.")
        (set_was_open c.id w) in
    caught-IsWellFormed env (codes "Error in on-open handler for " ++ c.endpoint ++ codes ": ")
      (run c.on_open c.endpoint greeted)
      (by_same greeted _ (leave c.on_open c.endpoint greeted) (
        by_same (set_was_open c.id w) greeted (refl, refl, refl)
          (set_was_open-IsWellFormed c.id w h)))
on_message-IsWellFormed env run leave c (Message.close code reason) w h =
    by_same w _ (refl, refl, refl) h
on_message-IsWellFormed env run leave c (Message.error reason) w h =
    by_same w _ (refl, refl, refl) h
on_message-IsWellFormed env run leave c Message.ping w h = h
on_message-IsWellFormed env run leave c Message.pong w h = h
on_message-IsWellFormed env run leave c Message.fragment w h = h

module _ (env : Env) (run : Handlers) where
  pub data Step : World → World → Type 0 where
    starting :
        {w : World} (callback : ℕ) (host path : Bytes) (on_open : OnOpen)
        → w.ws.pending ≡ none
        → Step w (start_connection callback host path on_open w)
    inserting : {w : World} → Step w (insert_connection env w)
    message_of :
        {w : World} (c : Connection) (m : Message)
        → IsLive c w
        → Step w (on_message env run c m w).1
    sending : {w : World} (endpoint text : Bytes) → Step w (send env endpoint text w).1
    sending_first : {w : World} (text : Bytes) → Step w (send_first env text w).1
    asking : {w : World} (endpoint : Bytes) → Step w (is_connected env endpoint w).1
    disconnecting : {w : World} (endpoint : Bytes) → Step w (disconnect endpoint w)
    disconnecting_all : {w : World} → Step w (disconnect_all w)
    waiting : {w : World} → Step w (wait_turn env w)

  pub Step-IsWellFormed :
      Rehashes env.sockets
      → LeaveConnections run
      → {w w' : World} → Step w w'
      → IsWellFormed w
      → IsWellFormed w'
  Step-IsWellFormed r leave {w} (starting callback host path on_open idle) h =
      start_connection-IsWellFormed callback host path on_open w h
  Step-IsWellFormed r leave {w} inserting h =
      insert_pending-IsWellFormed env w w.ws.pending r refl h
  Step-IsWellFormed r leave {w} (message_of c m live) h =
      on_message-IsWellFormed env run leave c m w h
  Step-IsWellFormed r leave {w} (sending endpoint text) h =
      by_same w _ (send-SameConnections env endpoint text w) h
  Step-IsWellFormed r leave {w} (sending_first text) h =
      by_same w _ (send_first-SameConnections env text w) h
  Step-IsWellFormed r leave {w} (asking endpoint) h =
      by_same w _ (is_connected-SameConnections env endpoint w) h
  Step-IsWellFormed r leave {w} (disconnecting endpoint) h =
      Shrinks-IsWellFormed w _ (disconnect-Shrinks endpoint w) h
  Step-IsWellFormed r leave {w} disconnecting_all h =
      Shrinks-IsWellFormed w _ (disconnect_all-Shrinks w) h
  Step-IsWellFormed r leave {w} waiting h = Shrinks-IsWellFormed w _ (wait_turn-Shrinks env w) h

  -- What is reached from a client that has just been constructed.
  pub data Reaches : World → World → Type 0 where
    constructed : {w : World} → Reaches w w
    after : {w v v' : World} → Reaches w v → Step v v' → Reaches w v'

  -- In every state that a client reaches from a well-formed one (such as the empty one), by any
  -- interleaving of its own steps and the messages of its sockets, the keys of the map are the
  -- endpoints of its connections and distinct, no object is in it twice, each connection has the
  -- started socket for its own URL, and a connection between its start and its insertion is none of
  -- those in the map. The on-open handlers open and close no connection, and an insertion only
  -- reorders the map.
  pub Reaches-IsWellFormed :
      Rehashes env.sockets
      → LeaveConnections run
      → {w w' : World} → Reaches w w'
      → IsWellFormed w
      → IsWellFormed w'
  Reaches-IsWellFormed r leave constructed h = h
  Reaches-IsWellFormed r leave (after reached step) h =
      Step-IsWellFormed r leave step (Reaches-IsWellFormed r leave reached h)
