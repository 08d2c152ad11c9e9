-- ===== src/World.antt =====
-- The state of a client object and what surrounds it: the log that its logger has received, the
-- error objects, the REST client (src/rest/client.cpp), the WebSocket client
-- (src/websocket/client.cpp), the symbol maps, and the answers of the libraries, which are
-- functions of how often they have been asked.
use crypto_con.Base.{ℕ, Bool, Bytes, List, Option, ◌⊎◌}
use crypto_con.Types.{TokenPair, Error}
use crypto_con.Utils.Signing.{Digest}

pub data Verb : Type 0 where
  get post put delete : Verb

-- A call on a Boost.Beast request under construction.
pub data Build : Type 0 where
  set_field : Bytes → Bytes → Build
  set_body : Bytes → Build
  prepare_payload : Build

-- A request: the constructor's arguments, and the calls made on it, in order.
pub record Request : Type 0 where
  pub verb : Verb
  pub target : Bytes
  pub version : ℕ
  pub calls : List Build

-- `boost::beast::error_code`
pub record ErrorCode : Type 0 where
  pub message : Bytes
  pub category : Bytes
  pub value : ℕ

-- Boost.Beast and OpenSSL. The argument is the number of the call. A `some` text of `resolve`,
-- `tcp` or `handshake` is the message of the exception that the call throws.
pub record Network : Type 0 where
  pub resolve : ℕ → Option Bytes
  pub tcp : ℕ → Option Bytes
  pub server_name : ℕ → Bool
  pub ssl_error : ℕ → Bytes
  pub handshake : ℕ → Option Bytes
  pub write : ℕ → Option ErrorCode
  pub read : ℕ → ErrorCode ⊎ Bytes
  pub shutdown : Option ErrorCode

-- What `rest::Client::Impl` holds, and how often it has called the network.
pub record RestState : Type 0 where
  pub host : Bytes
  pub connects : ℕ
  pub writes : ℕ
  pub reads : ℕ
  pub requests : List Request

-- `ix::ReadyState`
pub data ReadyState : Type 0 where
  connecting opened closing closed : ReadyState

-- The on-open handlers of the program: none, and those of the two policies.
pub data OnOpen : Type 0 where
  no_op : OnOpen
  binance_user_data : ℕ → ℕ → OnOpen
  kraken_trades : Bytes → OnOpen

-- The settings of an `ix::WebSocket`.
pub record Socket : Type 0 where
  pub url : Bytes
  pub ping_interval : ℕ
  pub deflate : Bool
  pub started : Bool

-- `ConnectionData`, with what its message callback has captured; `id` stands for its address.
pub record Connection : Type 0 where
  pub id : ℕ
  pub endpoint : Bytes
  pub ws : Option Socket
  pub was_open : Bool
  pub callback : ℕ
  pub on_open : OnOpen

-- What a user's callback may throw: an exception derived from `std::exception`, with its text, or
-- another one.
pub data Thrown : Type 0 where
  std_exception : Bytes → Thrown
  other_exception : Thrown

-- IXWebSocket and the user's callbacks. `ready` and `send` have the number of the call first.
-- `rehash` is the order of iteration of the map after an insertion. `callback` is what a user's
-- callback throws on a message, if it throws.
pub record Sockets : Type 0 where
  pub ready : ℕ → ℕ → ReadyState
  pub send : ℕ → Bool
  pub rehash : List (Bytes × Connection) → List (Bytes × Connection)
  pub callback : ℕ → Bytes → Option Thrown

-- What `websocket::Client` holds. `pending` is the connection that `addConnection` has started and
-- not yet put into the map, `outbox` holds what was sent on which socket, `stopped` the sockets
-- that were stopped, `delivered` the messages that callbacks have received.
pub record WsState : Type 0 where
  pub connections : List (Bytes × Connection)
  pub pending : Option Connection
  pub next_id : ℕ
  pub polls : ℕ
  pub sends : ℕ
  pub outbox : List (ℕ × Bytes)
  pub stopped : List ℕ
  pub delivered : List (ℕ × Bytes)

-- One element of the array of open orders, as simdjson reads it; a number is an error code.
pub record OrderView : Type 0 where
  pub symbol : ℕ ⊎ Bytes
  pub order_id : ℕ ⊎ ℕ

-- simdjson: a string field of a document, the texts of its errors, and the orders of a document that is an array.
pub record Json : Type 0 where
  pub string_field : Bytes → Bytes → ℕ ⊎ Bytes
  pub array : Bytes → ℕ ⊎ List OrderView
  pub error_message : ℕ → Bytes

-- The libraries and the system clock.
pub record Env : Type 0 where
  pub clock : ℕ → ℕ
  pub digest : Digest
  pub network : Network
  pub sockets : Sockets
  pub json : Json

pub record World : Type 0 where
  pub log : List Bytes
  pub clock_reads : ℕ
  pub dummy_error : Error
  pub caller_error : Error
  pub api_key : Bytes
  pub secret_key : Bytes
  pub binance_pairs : List (TokenPair × Bytes)
  pub kraken_pairs : List (TokenPair × Bytes)
  pub rest : RestState
  pub ws : WsState
