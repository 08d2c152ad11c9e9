-- ===== src/Websocket/Directory/Refines.antt =====
-- src/websocket/client.cpp keeps the promises of the directory, call by call.
use crypto_con.Base.{
  ◌++◌, ℕ, Bytes, Bool, List, [], ◌∷◌, Option, none, some, ◌≡◌, ◌≢◌, refl, sym, ap, ◌∙◌, fun_ext,
  Option-cases, Bool-cases, inl, inr, text_eq, text_eq_refl,
}
use crypto_con.Types.StdMap.{find, text_key}
use crypto_con.World.{World, Env, Connection, OnOpen, Thrown, std_exception, other_exception}
use crypto_con.Exec.{Outcome, ok, throw, pure, continue, ◌>>=◌}
use crypto_con.Websocket.{
  Connections, new_connection, start_connection, url_of, connect_endpoint, send, is_connected,
  disconnect, disconnect_all, stop_each, erase, assign,
}
use crypto_con.World.{no_op}
use crypto_con.Websocket.Events.{Message, on_message, call_on, deliver, escapes}
use crypto_con.Websocket.Lookup.{find-open_each}
use crypto_con.Websocket.Steps.{on_message-IsWellFormed}
use crypto_con.Websocket.Directory.{promise_message}
use crypto_con.Clients.{run_open}
use crypto_con.Clients.Handlers.{run_open-LeaveConnections}
use crypto_con.Clients.Messages.{on_message-Handled}
use crypto_con.Websocket.Changes.{Rehashes}
use crypto_con.Websocket.Invariant.{
  IsWellFormed, disconnect-Shrinks, disconnect_all-Shrinks, Shrinks-IsWellFormed,
}
use crypto_con.Websocket.Steps.{by_same, start_connection-IsWellFormed, insert_pending-IsWellFormed}
use crypto_con.Websocket.Lookup.{find-assign, find-erase, same_text}
use crypto_con.Websocket.Operations.{find-IsEntry}
use crypto_con.Websocket.Directory.{
  Directory, SocketCall, ended, followed, put, promise, promises, call_socket, call_sockets, view,
}

-- A table that has an entry at one URL and agrees elsewhere.
put_lem :
    (url : Bytes) (entry : Option Connection) (t t' : Bytes → Option Connection)
    → t' url ≡ entry
    → ((k : Bytes) → k ≢ url → t' k ≡ t k)
    → t' ≡ put url entry t
put_lem url entry t t' here others = fun_ext λ k. elim (Bool-cases (text_eq k url)) [
  | inl same ↦ rw same (ap t' (same_text k url same) ∙ here)
  | inr other ↦ rw other (others k λ e. absurd (cc (other, text_eq_refl url, e)))
]

-- A call answers and changes the directory as promised, and leaves a well-formed client.
abbrev pub Keeps : Env → SocketCall → World → Type 0
Keeps env c w =
    let (r, w') = call_socket env c w in
    let (answer, d) = promise env.sockets c (view w) in
    (r ≡ answer) × (view w' ≡ d) × IsWellFormed w'

stop_each-view : (m : Connections) (w : World) → view (stop_each m w) ≡ view w
stop_each-view [] w = refl
stop_each-view ((k, c) ∷ m) w = elim (Option-cases c.ws) [
  | inl none_there ↦ rw none_there (stop_each-view m w)
  | inr (s, there) ↦ rw there (stop_each-view m _)
]

-- A message that ended like this, answered by nothing if it returned.
heard-Keeps :
    (expected : Outcome (Unit {0})) (run : Outcome (Unit {0}) × World) (d : Directory)
    → run.0 ≡ expected
    → view run.1 ≡ d
    → IsWellFormed run.1
    → let (r, w') = continue run.0 (λ _. pure none) run.1 in
      (r ≡ ended expected) × (view w' ≡ d) × IsWellFormed w'
heard-Keeps (ok done) (r, w') d e shown h = rw e (refl, shown, h)
heard-Keeps (throw x) (r, w') d e shown h = rw e (refl, shown, h)

module _ (env : Env) (w : World) (h : IsWellFormed w) where
  pub connect-Keeps :
      (callback : ℕ) (host path : Bytes) (on_open : OnOpen)
      → Rehashes env.sockets
      → Keeps env (SocketCall.connect callback host path on_open) w
  unfolding connect_endpoint
  connect-Keeps callback host path on_open r =
      let url = url_of host path in
      let entry = new_connection w.ws.next_id callback url on_open in
      let started = start_connection callback host path on_open w in
      let (found, others) = find-assign url entry env.sockets r w.ws.connections h.keys in
      (
        refl,
        ap (λ t. record (view started) { table = t })
            (put_lem url (some entry) (λ k. find k w.ws.connections)
              (λ k. find k (assign env.sockets url entry w.ws.connections)) found others),
        insert_pending-IsWellFormed env started started.ws.pending r refl
            (start_connection-IsWellFormed callback host path on_open w h),
      )

  send-Keeps : (url text : Bytes) → Keeps env (SocketCall.send_to url text) w
  unfolding send
  send-Keeps url text = elim (Option-cases (find url w.ws.connections)) [
    | inl missing ↦ rw missing (refl, refl, by_same w _ (refl, refl, refl) h)
    | inr (c, found) ↦
        rw (found, (find-IsEntry w url c h found).socket)
          (refl, refl, by_same w _ (refl, refl, refl) h)
  ]

  asks-Keeps : (url : Bytes) → Keeps env (SocketCall.asks url) w
  unfolding is_connected
  asks-Keeps url = elim (Option-cases (find url w.ws.connections)) [
    | inl missing ↦ rw missing (refl, refl, h)
    | inr (c, found) ↦
        rw (found, (find-IsEntry w url c h found).socket)
          (refl, refl, by_same w _ (refl, refl, refl) h)
  ]

  disconnect-view :
      (url : Bytes)
      → view (disconnect url w) ≡ record (view w) { table = put url none (view w).table }
  unfolding disconnect
  disconnect-view url = elim (Option-cases (find url w.ws.connections)) [
    | inl missing ↦ rw missing (
        ap (λ t. record (view w) { table = t })
          (put_lem url none (view w).table (view w).table missing (λ k n. refl)))
    | inr (c, found) ↦
        let (gone, others) = find-erase url w.ws.connections h.keys in
        rw (found, (find-IsEntry w url c h found).socket)
          (ap (λ t. record (view w) { table = t })
            (put_lem url none (view w).table (λ k. find k (erase url w.ws.connections)) gone
              others))
  ]

  disconnect_all-view : view (disconnect_all w) ≡ record (view w) { table = λ k. none }
  unfolding disconnect_all
  disconnect_all-view =
      ap (λ (d : Directory). record d { table = λ k. none }) (stop_each-view w.ws.connections w)

  heard-view :
      (c : Connection) (o : Option Thrown) (text : Bytes)
      → view (call_on env c o (deliver env c text w)).1
        ≡ record (view w) { delivered = w.ws.delivered ++ (c.callback, text) ∷ [] }
  heard-view c none text = refl
  heard-view c (some (std_exception m)) text = refl
  heard-view c (some other_exception) text = refl

  hears-view :
      (id callback : ℕ) (url : Bytes) (m : Message)
      → view (on_message env (run_open env) (new_connection id callback url no_op) m w).1
        ≡ promise_message id callback m (view w)
  unfolding on_message run_open
  hears-view id callback url (Message.message text) =
      heard-view (new_connection id callback url no_op) (env.sockets.callback callback text) text
  hears-view id callback url Message.«open» =
      ap (λ t. record (view w) { table = t }) (fun_ext λ k. find-open_each id k w.ws.connections)
  hears-view id callback url (Message.close code reason) = refl
  hears-view id callback url (Message.error reason) = refl
  hears-view id callback url Message.ping = refl
  hears-view id callback url Message.pong = refl
  hears-view id callback url Message.fragment = refl

  hears-Keeps :
      (id callback : ℕ) (url : Bytes) (m : Message)
      → Keeps env (SocketCall.hears id callback url m) w
  hears-Keeps id callback url m =
      let c = new_connection id callback url no_op in
      heard-Keeps (escapes env.sockets.callback callback m) (on_message env (run_open env) c m w)
        (promise_message id callback m (view w)) (on_message-Handled env c m w).0
        (hears-view id callback url m)
        (on_message-IsWellFormed env (run_open env) (run_open-LeaveConnections env) c m w h)

  call_socket-Keeps : (c : SocketCall) → Rehashes env.sockets → Keeps env c w
  call_socket-Keeps (SocketCall.connect callback host path on_open) r =
      connect-Keeps callback host path on_open r
  call_socket-Keeps (SocketCall.send_to url text) r = send-Keeps url text
  call_socket-Keeps (SocketCall.asks url) r = asks-Keeps url
  call_socket-Keeps (SocketCall.disconnect_from url) r =
      (refl, disconnect-view url, Shrinks-IsWellFormed w _ (disconnect-Shrinks url w) h)
  call_socket-Keeps (SocketCall.hears id callback url m) r = hears-Keeps id callback url m
  call_socket-Keeps SocketCall.disconnects_all r =
      (refl, disconnect_all-view, Shrinks-IsWellFormed w _ (disconnect_all-Shrinks w) h)

-- The answers to a list of calls and the directory after it are those promised, and the client is
-- well-formed after it.
abbrev pub Serves : Env → List SocketCall → World → Type 0
Serves env cs w =
    let (r, w') = call_sockets env cs w in
    let (answers, d) = promises env.sockets cs (view w) in
    (r ≡ answers) × (view w' ≡ d) × IsWellFormed w'

-- The answer of the first call, and what the client did in the rest.
rest-Serves :
    (env : Env) (cs : List SocketCall) (v : World)
    → (answers : Outcome (List (Option Bool))) → (promises env.sockets cs (view v)).0 ≡ answers
    → Serves env cs v
    → (a : Option Bool)
    → let (r, w') = (call_sockets env cs >>= λ l. pure (a ∷ l)) v in
      let (expected, d) = followed (ok a) (view v) (promises env.sockets cs (view v)) in
      (r ≡ expected) × (view w' ≡ d) × IsWellFormed w'
rest-Serves env cs v (ok l) e (answers, shown, h) a = rw (answers, e) (refl, shown, h)
rest-Serves env cs v (throw x) e (answers, shown, h) a = rw (answers, e) (refl, shown, h)

answered-Serves :
    (env : Env) (c : SocketCall) (cs : List SocketCall) (w : World)
    → (answer : Outcome (Option Bool)) → (promise env.sockets c (view w)).0 ≡ answer
    → Keeps env c w
    → Serves env cs (call_socket env c w).1
    → Serves env (c ∷ cs) w
answered-Serves env c cs w (ok a) e (answer, shown, h) later =
    rw (answer, e, sym shown) (rest-Serves env cs (call_socket env c w).1 _ refl later a)
answered-Serves env c cs w (throw x) e (answer, shown, h) later = rw (answer, e) (refl, shown, h)

-- The client refines its directory, for each call and for each list of connections,
-- sends, questions and disconnections by URL and of messages of feeds, which have no on-open
-- handler, in any interleaving; the answers, the messages handed to the sockets, the texts handed to
-- the callbacks and the map as a function of the URL are those of the directory, whatever the order
-- of the map. A callback may throw: an exception that is derived from `std::exception` changes none of
-- this, and any other ends the list, for the client and the directory alike. The client is well-formed at first, and an insertion
-- only reorders its map.
pub call_sockets-promises :
    (env : Env) (cs : List SocketCall) (w : World)
    → Rehashes env.sockets
    → IsWellFormed w
    → Serves env cs w
call_sockets-promises env [] w r h = (refl, refl, h)
call_sockets-promises env (c ∷ cs) w r h =
    let kept = call_socket-Keeps env w h c r in
    answered-Serves env c cs w _ refl kept
      (call_sockets-promises env cs (call_socket env c w).1 r kept.2)
