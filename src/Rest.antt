-- ===== src/Rest.antt =====
-- src/rest/client.cpp: the HTTPS client. A call of Boost.Beast, Boost.Asio or OpenSSL takes its
-- answer from `Network`; a request is recorded when it is handed to `http::write`.
pub mod Defaults
pub mod Exchange
pub mod Requests
use crypto_con.Base.{
  ℕ, ◌+◌, Bytes, codes, Bool, true, false, List, [], ◌∷◌, ◌++◌, map, Option, none, some, inl, inr,
  ◌⊎◌,
}
use crypto_con.Types.{Error, make_error}
use crypto_con.Utils.Number.{decimal}
use crypto_con.World.{
  World, Env, Network, ErrorCode, RestState, Request, Verb, Build, get, post, put, delete,
  set_field, set_body, prepare_payload,
}
use crypto_con.Exec.{
  Exec, Exn, Outcome, ok, throw, system_error, pure, raise, modify, logger, ErrorRef, set_error,
  ◌>>=◌, ◌>>◌,
}

abbrev pub Headers : Type 0
Headers = List (Bytes × Bytes)

-- A call that throws a `system_error` with the message, or does nothing.
abbrev throw_if : Option Bytes → Exec (Unit {0})
throw_if none = pure tt
throw_if (some message) = raise (system_error message)

abbrev server_name_failed : Bool → Bytes → Option Bytes
server_name_failed true message = none
server_name_failed false message = some message

-- The steps of `connect` at the n-th connection.
abbrev pub connect_steps : Network → ℕ → Exec (Unit {0})
connect_steps net n = do
  throw_if (net.resolve n)
  throw_if (net.tcp n)
  throw_if (server_name_failed (net.server_name n) (net.ssl_error n))
  throw_if (net.handshake n)

abbrev pub count_connect : World → World
count_connect w = record w { rest = record w.rest { connects = w.rest.connects + 1 } }

-- `Impl::connect`
unfoldable pub connect : Env → Exec (Unit {0})
connect env w = connect_steps env.network w.rest.connects (count_connect w)

-- `reconnectStream`
unfoldable pub reconnect_stream : Env → Exec (Unit {0})
reconnect_stream env = do logger (codes "Reconnecting stream..."); connect env

-- " [" + ec.category().name() + ":" + std::to_string(ec.value()) + "]"
abbrev pub where_failed : ErrorCode → Bytes
where_failed ec = codes " [" ++ ec.category ++ codes ":" ++ decimal ec.value ++ codes "]"

abbrev pub write_failed : ErrorCode → Bytes
write_failed ec = codes "Error writing to stream: " ++ ec.message

abbrev pub read_failed : ErrorCode → Bytes
read_failed ec = codes "Error reading from stream: " ++ ec.message

abbrev pub record_write : Request → World → World
record_write req w = record w {
  rest = record w.rest { writes = w.rest.writes + 1; requests = w.rest.requests ++ req ∷ [] };
}

unfoldable pub write_result : Env → ErrorRef → Option ErrorCode → Exec (Unit {0})
write_result env error none = pure tt
write_result env error (some ec) = do
  modify (set_error error (make_error (write_failed ec) 2))
  logger (write_failed ec ++ where_failed ec)
  reconnect_stream env

-- `Impl::writeToStream`
unfoldable pub write_to_stream : Env → Request → ErrorRef → Exec (Unit {0})
write_to_stream env req error w =
    write_result env error (env.network.write w.rest.writes) (record_write req w)

unfoldable pub read_result : Env → ErrorRef → ErrorCode ⊎ Bytes → Exec Bytes
read_result env error (inl ec) = do
  modify (set_error error (make_error (read_failed ec) 1))
  logger (read_failed ec ++ where_failed ec)
  reconnect_stream env
  pure []
read_result env error (inr body) = pure body

abbrev pub record_read : World → World
record_read w = record w { rest = record w.rest { reads = w.rest.reads + 1 } }

-- `Client::readFromStream`
unfoldable pub read_from_stream : Env → ErrorRef → Exec Bytes
read_from_stream env error w = read_result env error (env.network.read w.rest.reads) (record_read w)

-- The last two steps of every verb.
unfoldable pub exchange : Env → Request → ErrorRef → Exec Bytes
exchange env req error = do write_to_stream env req error; read_from_stream env error

abbrev pub standard_fields : Bytes → List Build
standard_fields host =
    set_field (codes "Host") host
    ∷ set_field (codes "User-Agent") (codes "trade-connector-client")
    ∷ set_field (codes "Connection") (codes "keep-alive")
    ∷ []

abbrev pub set_header : Bytes × Bytes → Build
set_header (name, value) = set_field name value

-- A request with a string body, as `post` and `put` build it.
abbrev pub request_string : Verb → Bytes → Headers → Bytes → World → Request
request_string verb target headers body w = record {
  verb = verb;
  target = target;
  version = 11;
  calls = standard_fields w.rest.host ++ set_body body ∷ prepare_payload ∷ map set_header headers;
}

-- A request with no body, as `get` and `del` build it.
abbrev pub request_empty : Verb → Bytes → Headers → World → Request
request_empty verb target headers w = record {
  verb = verb;
  target = target;
  version = 11;
  calls = standard_fields w.rest.host ++ map set_header headers;
}

-- `Client::post`
unfoldable pub http_post : Env → Bytes → Headers → Bytes → ErrorRef → Exec Bytes
http_post env target headers body error w =
    (logger (codes "POST " ++ target ++ codes " Body: " ++ body)
        >> exchange env (request_string post target headers body w) error)
      w

-- `Client::get`
unfoldable pub http_get : Env → Bytes → Headers → ErrorRef → Exec Bytes
http_get env target headers error w = exchange env (request_empty get target headers w) error w

-- `Client::put`
unfoldable pub http_put : Env → Bytes → Headers → Bytes → ErrorRef → Exec Bytes
http_put env target headers body error w =
    exchange env (request_string put target headers body w) error w

-- `Client::del`
unfoldable pub http_delete : Env → Bytes → Headers → ErrorRef → Exec Bytes
http_delete env target headers error w =
    exchange env (request_empty delete target headers w) error w

-- `Impl::Impl`: the fields of a client that has not connected.
abbrev pub fresh_rest : Bytes → RestState
fresh_rest host = record { host = host; connects = 0; writes = 0; reads = 0; requests = [] }

-- `Client::Client`, in a world that has its fields
abbrev pub open_client : Env → Exec (Unit {0})
open_client = connect

abbrev report_shutdown : Option ErrorCode → Exec (Unit {0})
report_shutdown none = pure tt
report_shutdown (some ec) =
    logger (codes "Error during SSL shutdown: " ++ ec.message ++ where_failed ec)

-- `Client::~Client`
unfoldable pub close_client : Env → Exec (Unit {0})
close_client env = report_shutdown env.network.shutdown
