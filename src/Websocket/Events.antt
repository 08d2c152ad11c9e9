-- ===== src/Websocket/Events.antt =====
-- The message callback that `addConnection` of src/websocket/client.cpp gives to a socket.
use crypto_con.Base.{ℕ, Bytes, codes, [], ◌∷◌, ◌++◌, Option, none, some, true, ◌==◌, if◌then◌else◌}
use crypto_con.Utils.Number.{decimal}
use crypto_con.World.{World, Env, Connection, OnOpen, Thrown, std_exception, other_exception}
use crypto_con.Exec.{
  Exec, Exn, Outcome, ok, throw, logic_error, simdjson_error, system_error, undefined, foreign,
}
use crypto_con.Websocket.{Connections, log_line}

-- What a socket tells its message callback.
pub data Message : Type 0 where
  message : Bytes → Message
  «open» : Message
  close : ℕ → Bytes → Message
  error : Bytes → Message
  ping pong fragment : Message

module _ (env : Env) where
  -- `e.what()`
  abbrev pub what : Exn → Option Bytes
  what (logic_error m) = some m
  what (simdjson_error code) = some (env.json.error_message code)
  what (system_error m) = some m
  what undefined = none
  what foreign = none

  abbrev pub log_caught : Bytes → Exn → Option Bytes → World → Outcome (Unit {0}) × World
  log_caught prefix e none w = (throw e, w)
  log_caught prefix e (some m) w = (ok tt, log_line (prefix ++ m) w)

  -- `catch (const std::exception& e)`
  abbrev pub catch_logged : Bytes → Outcome (Unit {0}) × World → Outcome (Unit {0}) × World
  catch_logged prefix (ok done, w) = (ok done, w)
  catch_logged prefix (throw e, w) = log_caught prefix e (what e) w

  abbrev pub deliver : Connection → Bytes → World → World
  deliver c text w = record w {
    ws = record w.ws { delivered = w.ws.delivered ++ (c.callback, text) ∷ [] };
  }

  -- The end of the call of the user's callback: `catch (const std::exception& e)` catches no other
  -- exception.
  abbrev pub call_on : Connection → Option Thrown → Exec (Unit {0})
  call_on c none w = (ok tt, w)
  call_on c (some (std_exception m)) w =
      (ok tt, log_line (codes "Error in callback for " ++ c.endpoint ++ codes ": " ++ m) w)
  call_on c (some other_exception) w = (throw foreign, w)

abbrev pub open_if : ℕ → Connection → Connection
open_if id c = if c.id == id then record c { was_open = true } else c

abbrev pub open_each : ℕ → Connections → Connections
open_each id [] = []
open_each id ((k, c) ∷ m) = (k, open_if id c) ∷ open_each id m

abbrev pub open_pending : ℕ → Option Connection → Option Connection
open_pending id none = none
open_pending id (some c) = some (open_if id c)

-- `conn->was_open = true`, wherever the connection is
abbrev pub set_was_open : ℕ → World → World
set_was_open id w = record w {
  ws = record w.ws {
    connections = open_each id w.ws.connections;
    pending = open_pending id w.ws.pending;
  };
}

-- What comes out of the message callback: an exception of the user's callback that is not derived
-- from `std::exception`.
abbrev escaping : Option Thrown → Outcome (Unit {0})
escaping none = ok tt
escaping (some (std_exception m)) = ok tt
escaping (some other_exception) = throw foreign

abbrev pub escapes : (ℕ → Bytes → Option Thrown) → ℕ → Message → Outcome (Unit {0})
escapes throws callback (message text) = escaping (throws callback text)
escapes throws callback m = ok tt

-- The message callback of a connection, over the on-open handlers of the program.
unfoldable pub on_message :
    (env : Env) → (OnOpen → Bytes → Exec (Unit {0})) → Connection → Message → Exec (Unit {0})
on_message env run c (message text) w =
    call_on env c (env.sockets.callback c.callback text) (deliver env c text w)
on_message env run c «open» w =
    catch_logged env (codes "Error in on-open handler for " ++ c.endpoint ++ codes ": ") (
      run c.on_open c.endpoint (
        log_line (codes "Websocket connection to " ++ c.endpoint ++ codes " established.")
          (set_was_open c.id w)))
on_message env run c (close code reason) w = (
  ok tt,
  log_line
      (codes "Connection closed to "
        ++ c.endpoint
        ++ codes " (code: "
        ++ decimal code
        ++ codes ", reason: "
        ++ reason
        ++ codes ")")
      w,
)
on_message env run c (error reason) w =
    (ok tt, log_line (codes "WebSocket error on " ++ c.endpoint ++ codes ": " ++ reason) w)
on_message env run c ping w = (ok tt, w)
on_message env run c pong w = (ok tt, w)
on_message env run c fragment w = (ok tt, w)
