-- ===== src/Websocket/Directory.antt =====
-- src/websocket/client.cpp seen from outside: a directory of connections by URL, without an order.
-- Its operations say what the calls of the client promise, and what the messages of a socket change;
-- `call_socket` is what the client does.
pub mod Refines
pub mod Order
use crypto_con.Base.{
  ℕ, ◌+◌, Bytes, Bool, false, List, [], ◌∷◌, ◌++◌, Option, none, some, text_eq, if◌then◌else◌,
}
use crypto_con.Types.StdMap.{find, text_key}
use crypto_con.World.{World, Env, Sockets, Connection, OnOpen, no_op, opened}
use crypto_con.Exec.{Exec, Outcome, ok, throw, pure, modify, ◌>>=◌, ◌>>◌}
use crypto_con.Websocket.Events.{Message, on_message, open_pending, escapes}
use crypto_con.Clients.{run_open}
use crypto_con.Websocket.{
  new_connection, url_of, connect_endpoint, send, is_connected, disconnect, disconnect_all,
  is_state,
}

pub record Directory : Type 0 where
  pub table : Bytes → Option Connection
  pub next_id : ℕ
  pub polls : ℕ
  pub sends : ℕ
  pub outbox : List (ℕ × Bytes)
  pub delivered : List (ℕ × Bytes)

-- The calls of the client by URL, and what the socket of a connection without an on-open handler
-- tells it: the connection has an id, a callback, and a URL.
pub data SocketCall : Type 0 where
  connect : ℕ → Bytes → Bytes → OnOpen → SocketCall
  send_to : Bytes → Bytes → SocketCall
  asks : Bytes → SocketCall
  disconnect_from : Bytes → SocketCall
  disconnects_all : SocketCall
  hears : ℕ → ℕ → Bytes → Message → SocketCall

-- The table with another entry at one URL.
abbrev pub put : Bytes → Option Connection → (Bytes → Option Connection) → Bytes → Option Connection
put url entry table k = if text_eq k url then entry else table k

-- A text reaches the callback, and the end of the handshake opens the connection.
abbrev pub promise_message : ℕ → ℕ → Message → Directory → Directory
promise_message id callback (Message.message text) d = record d {
  delivered = d.delivered ++ (callback, text) ∷ [];
}
promise_message id callback Message.«open» d = record d { table = λ k. open_pending id (d.table k) }
promise_message id callback m d = d

abbrev pub ended : Outcome (Unit {0}) → Outcome (Option Bool)
ended (ok done) = ok none
ended (throw e) = throw e

abbrev before : Option Bool → Outcome (List (Option Bool)) → Outcome (List (Option Bool))
before answer (ok answers) = ok (answer ∷ answers)
before answer (throw e) = throw e

abbrev pub followed :
    Outcome (Option Bool)
    → Directory
    → Outcome (List (Option Bool)) × Directory
    → Outcome (List (Option Bool)) × Directory
followed (ok answer) d (answers, d') = (before answer answers, d')
followed (throw e) d later = (throw e, d)

module _ (s : Sockets) where
  abbrev promise_send : Bytes → Option Connection → Directory → Outcome (Option Bool) × Directory
  promise_send text none d = (ok (some false), d)
  promise_send text (some c) d =
      let sent = s.send d.sends in
      (
        ok (some sent),
        record d {
          sends = d.sends + 1;
          outbox = d.outbox ++ (if sent then (c.id, text) ∷ [] else []);
        },
      )

  abbrev promise_state : Option Connection → Directory → Outcome (Option Bool) × Directory
  promise_state none d = (ok (some false), d)
  promise_state (some c) d =
      (ok (some (is_state (s.ready d.polls c.id) opened)), record d { polls = d.polls + 1 })

  -- The answer to a call, and the directory after it. An exception of a user's callback that is not
  -- derived from `std::exception` comes out of the message.
  abbrev pub promise : SocketCall → Directory → Outcome (Option Bool) × Directory
  promise (SocketCall.connect callback host path on_open) d =
      let url = url_of host path in
      (
        ok none,
        record d {
          table = put url (some (new_connection d.next_id callback url on_open)) d.table;
          next_id = d.next_id + 1;
        },
      )
  promise (SocketCall.send_to url text) d = promise_send text (d.table url) d
  promise (SocketCall.asks url) d = promise_state (d.table url) d
  promise (SocketCall.disconnect_from url) d = (ok none, record d { table = put url none d.table })
  promise SocketCall.disconnects_all d = (ok none, record d { table = λ k. none })
  promise (SocketCall.hears id callback url m) d =
      (ended (escapes s.callback callback m), promise_message id callback m d)

  -- The answers to a list of calls, which ends at an exception.
  abbrev pub promises : List SocketCall → Directory → Outcome (List (Option Bool)) × Directory
  promises [] d = (ok [], d)
  promises (c ∷ cs) d =
      let (answer, d') = promise c d in let later = promises cs d' in followed answer d' later

module _ (env : Env) where
  -- The call on the client; the overloads of `send` and `disconnect` that name their URL.
  abbrev pub call_socket : SocketCall → Exec (Option Bool)
  call_socket (SocketCall.connect callback host path on_open) = do
    connect_endpoint env callback host path on_open
    pure none
  call_socket (SocketCall.send_to url text) = do sent ← send env url text; pure (some sent)
  call_socket (SocketCall.asks url) = do open_now ← is_connected env url; pure (some open_now)
  call_socket (SocketCall.disconnect_from url) = do modify (disconnect url); pure none
  call_socket SocketCall.disconnects_all = do modify disconnect_all; pure none
  call_socket (SocketCall.hears id callback url m) = do
    on_message env (run_open env) (new_connection id callback url no_op) m
    pure none

  abbrev pub call_sockets : List SocketCall → Exec (List (Option Bool))
  call_sockets [] = pure []
  call_sockets (c ∷ cs) = do
    answer ← call_socket c
    answers ← call_sockets cs
    pure (answer ∷ answers)

-- What the directory shows of a client.
abbrev pub view : World → Directory
view w = record {
  table = λ k. find k w.ws.connections;
  next_id = w.ws.next_id;
  polls = w.ws.polls;
  sends = w.ws.sends;
  outbox = w.ws.outbox;
  delivered = w.ws.delivered;
}
