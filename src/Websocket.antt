-- ===== src/Websocket.antt =====
-- src/websocket/client.cpp: the WebSocket client. A socket calls back from a thread of its own, so
-- what `addConnection` does before and after the start of the socket is two steps, and a message of
-- the socket can come between them.
pub mod Loop
pub mod Events
pub mod Changes
pub mod Invariant
pub mod Steps
pub mod Operations
pub mod Wait
pub mod Lookup
pub mod Directory
pub mod Bag
use crypto_con.Base.{
  ℕ, ◌+◌, Bytes, codes, Bool, true, false, ◌&&◌, not, List, [], ◌∷◌, ◌++◌, Option, none, some,
  length, text_eq, ◌==◌, if◌then◌else◌,
}
use crypto_con.Types.StdMap.{find, text_key}
use crypto_con.Utils.Number.{decimal}
use crypto_con.World.{
  World, Env, Sockets, Socket, Connection, WsState, OnOpen, ReadyState, connecting, opened, closing,
  closed,
}
use crypto_con.Exec.{
  Exec, Exn, Outcome, ok, throw, logic_error, simdjson_error, system_error, undefined, pure, modify,
  logger, ◌>>=◌, ◌>>◌,
}

abbrev pub Connections : Type 0
Connections = List (Bytes × Connection)

abbrev pub with_connections : Connections → World → World
with_connections m w = record w { ws = record w.ws { connections = m } }

abbrev pub log_line : Bytes → World → World
log_line message w = record w { log = w.log ++ message ∷ [] }

-- `Client::Client`: no connection yet, and nothing sent or delivered.
abbrev pub fresh_ws : WsState
fresh_ws = record {
  connections = [];
  pending = none;
  next_id = 0;
  polls = 0;
  sends = 0;
  outbox = [];
  stopped = [];
  delivered = [];
}

abbrev pub url_of : Bytes → Bytes → Bytes
url_of host path = codes "wss://" ++ host ++ path

abbrev pub new_socket : Bytes → Socket
new_socket url = record { url = url; ping_interval = 30; deflate = false; started = true }

abbrev pub new_connection : ℕ → ℕ → Bytes → OnOpen → Connection
new_connection id callback url on_open = record {
  id = id;
  endpoint = url;
  ws = some (new_socket url);
  was_open = false;
  callback = callback;
  on_open = on_open;
}

-- `addConnection`, up to and with `ws->start()`
abbrev pub start_connection : ℕ → Bytes → Bytes → OnOpen → World → World
start_connection callback host path on_open w =
    let w' = log_line (codes "Connecting to " ++ url_of host path) w in
    record w' {
      ws = record w'.ws {
        pending = some (new_connection w.ws.next_id callback (url_of host path) on_open);
        next_id = w.ws.next_id + 1;
      };
    }

-- The value under a key that is there is replaced.
abbrev pub replace : Bytes → Connection → Connections → Connections
replace url c [] = []
replace url c ((k, old) ∷ m) = if text_eq url k then (k, c) ∷ m else (k, old) ∷ replace url c m

abbrev place : Sockets → Bytes → Connection → Option Connection → Connections → Connections
place s url c (some old) m = replace url c m
place s url c none m = s.rehash ((url, c) ∷ m)

-- `connections[url] = c`; a new key may change the order of iteration
abbrev pub assign : Sockets → Bytes → Connection → Connections → Connections
assign s url c m = place s url c (find url m) m

abbrev pub insert_pending : Sockets → Option Connection → World → World
insert_pending s none w = w
insert_pending s (some c) w = record w {
  ws = record w.ws { connections = assign s c.endpoint c w.ws.connections; pending = none };
}

-- `connections[url] = std::move(conn_data)`, the end of `addConnection`
abbrev pub insert_connection : Env → World → World
insert_connection env w = insert_pending env.sockets w.ws.pending w

-- `connections.erase(it)`
abbrev pub erase : Bytes → Connections → Connections
erase url [] = []
erase url ((k, c) ∷ m) = if text_eq url k then m else (k, c) ∷ erase url m

abbrev pub stop_socket : Connection → World → World
stop_socket c w = record w { ws = record w.ws { stopped = w.ws.stopped ++ c.id ∷ [] } }

-- The state after a `ws->send`.
abbrev pub after_send : Bool → Connection → Bytes → World → World
after_send sent c message w = record w {
  ws = record w.ws {
    sends = w.ws.sends + 1;
    outbox = w.ws.outbox ++ (if sent then (c.id, message) ∷ [] else []);
  };
}

abbrev pub count_poll : World → World
count_poll w = record w { ws = record w.ws { polls = w.ws.polls + 1 } }

abbrev pub is_state : ReadyState → ReadyState → Bool
is_state connecting connecting = true
is_state opened opened = true
is_state closing closing = true
is_state closed closed = true
is_state a b = false

-- `it` of `connections.find(endpoint)`, if it has a socket
abbrev pub socket_of : Option Connection → Option Connection
socket_of none = none
socket_of (some c) = elim c.ws [ none ↦ none | some s ↦ some c ]

abbrev socket_in : Option Connection → Option Socket
socket_in none = none
socket_in (some c) = c.ws

-- `getWebSocket`, with `nullptr` as `none`
unfoldable pub get_web_socket : Bytes → World → Option Socket
get_web_socket endpoint w = socket_in (socket_of (find endpoint w.ws.connections))

abbrev disconnect_on : Bytes → Option Connection → World → World
disconnect_on endpoint none w = w
disconnect_on endpoint (some c) w =
    let w' = stop_socket c (log_line (codes "Disconnecting from " ++ endpoint) w) in
    with_connections (erase endpoint w'.ws.connections) w'

unfoldable pub disconnect : Bytes → World → World
disconnect endpoint w = disconnect_on endpoint (socket_of (find endpoint w.ws.connections)) w

abbrev stop_one : Bytes → Option Connection → World → World
stop_one endpoint none w = w
stop_one endpoint (some c) w = stop_socket c (log_line (codes "Disconnecting from " ++ endpoint) w)

-- The loop of `disconnectAll`.
abbrev pub stop_each : Connections → World → World
stop_each [] w = w
stop_each ((endpoint, c) ∷ m) w = stop_each m (stop_one endpoint (socket_of (some c)) w)

-- `disconnectAll`
unfoldable pub disconnect_all : World → World
disconnect_all w = with_connections [] (stop_each w.ws.connections w)

-- `Client::~Client`
abbrev pub destroy_client : World → World
destroy_client = disconnect_all

-- `connectionCount`
abbrev pub connection_count : World → ℕ
connection_count w = length w.ws.connections

abbrev first : Connections → Option Connection
first [] = none
first ((k, c) ∷ m) = some c

module _ (env : Env) where
  -- `connectEndpoint`, `connectEndpointImpl` and `addConnection`, with no message in between
  unfoldable pub connect_endpoint : ℕ → Bytes → Bytes → OnOpen → Exec (Unit {0})
  connect_endpoint callback host path on_open =
      modify (λ w. insert_connection env (start_connection callback host path on_open w))

  abbrev send_on : Bytes → Option Connection → Bytes → Exec Bool
  send_on failure none text w = (ok false, log_line failure w)
  send_on failure (some c) text w =
      let sent = env.sockets.send w.ws.sends in (ok sent, after_send sent c text w)

  -- `send(message)`, to the first connection of the map
  unfoldable pub send_first : Bytes → Exec Bool
  send_first text w =
      send_on (codes "No endpoints connected.") (socket_of (first w.ws.connections)) text w

  -- `send(endpoint, message)`
  unfoldable pub send : Bytes → Bytes → Exec Bool
  send endpoint text w =
      send_on (codes "Endpoint not connected: " ++ endpoint)
        (socket_of (find endpoint w.ws.connections)) text w

  abbrev ready_state : Connection → Exec ReadyState
  ready_state c w = (ok (env.sockets.ready w.ws.polls c.id), count_poll w)

  abbrev connected_on : Option Connection → Exec Bool
  connected_on none = pure false
  connected_on (some c) = do state ← ready_state c; pure (is_state state opened)

  unfoldable pub is_connected : Bytes → Exec Bool
  is_connected endpoint w = connected_on (socket_of (find endpoint w.ws.connections)) w
