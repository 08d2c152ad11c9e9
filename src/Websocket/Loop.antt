-- ===== src/Websocket/Loop.antt =====
-- `wait` of src/websocket/client.cpp.
use crypto_con.Base.{
  codes, Bool, true, false, List, [], ◌∷◌, ◌++◌, Option, none, some, if◌then◌else◌,
}
use crypto_con.World.{World, Env, Connection, closed}
use crypto_con.Websocket.{Connections, with_connections, log_line, count_poll, is_state, socket_of}

-- `connections.empty()`
abbrev pub is_empty_map : Connections → Bool
is_empty_map [] = true
is_empty_map (e ∷ m) = false

module _ (env : Env) where
  abbrev dead_on : Connection → Option Connection → World → Bool × World
  dead_on c none w = (true, w)
  dead_on c (some s) w =
      if c.was_open
      then (is_state (env.sockets.ready w.ws.polls c.id) closed, count_poll w)
      else (false, w)

  -- The condition in the loop of `wait`.
  abbrev pub dead : Connection → World → Bool × World
  dead c w = dead_on c (socket_of (some c)) w

  -- One walk of `wait` over the map: what is left of it.
  unfoldable pub sweep : Connections → World → Connections × World
  sweep [] w = ([], w)
  sweep ((endpoint, c) ∷ m) w =
      let (gone, polled) = dead c w in
      let removed = sweep m (log_line (codes "Removing closed connection: " ++ endpoint) polled) in
      let (kept, w') = sweep m polled in if gone then removed else ((endpoint, c) ∷ kept, w')

  -- One turn of the loop of `wait`, after the sleep.
  unfoldable pub wait_turn : World → World
  unfolding sweep
  wait_turn w = let (m, w') = sweep w.ws.connections w in with_connections m w'

  -- `wait`. The list has what other threads do to the client during each sleep of 100 ms; if it
  -- ends before the loop does, there is no result.
  unfoldable pub wait : List (World → World) → World → Option World
  wait [] w = if is_empty_map w.ws.connections then some w else none
  wait (during ∷ sleeps) w =
      let rest = wait sleeps (wait_turn (during w)) in
      if is_empty_map w.ws.connections then some w else rest
