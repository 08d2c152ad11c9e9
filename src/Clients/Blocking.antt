-- ===== src/Clients/Blocking.antt =====
-- What keeps `wait` of src/websocket/client.cpp from returning, with the handlers of the policies.
use crypto_con.Base.{
  ℕ, Bytes, List, [], ◌∷◌, map, none, some, ◌≡◌, ◌≢◌, refl, ap, ◌∙◌, arith, All, false, Bool-cases,
  inl, inr, ◌==◌,
}
use crypto_con.Types.StdMap.{find, text_key}
use crypto_con.World.{World, Env, Connection}
use crypto_con.Websocket.{new_socket}
use crypto_con.Websocket.Events.{Message, on_message, open_if, open_pending}
use crypto_con.Websocket.Lookup.{find-open_each}
use crypto_con.Websocket.Loop.{wait, wait_turn}
use crypto_con.Websocket.Wait.{sweep-find, is_empty_map-find}
use crypto_con.Clients.{run_open}
use crypto_con.Clients.Handlers.{run_open-Settles}
use crypto_con.Clients.Subscription.{opened_runs}

-- The messages of sockets, in order: each with the connection whose callback gets it.
abbrev pub heard : Env → List (Connection × Message) → World → World
heard env [] w = w
heard env ((c, m) ∷ ms) w = heard env ms (on_message env (run_open env) c m w).1

-- The message does not say that the connection with this id has opened.
abbrev pub IsSilent : ℕ → Connection × Message → Type 0
IsSilent id (c, Message.«open») = c.id ≢ id
IsSilent id (c, Message.message text) = Unit
IsSilent id (c, Message.close code reason) = Unit
IsSilent id (c, Message.error reason) = Unit
IsSilent id (c, Message.ping) = Unit
IsSilent id (c, Message.pong) = Unit
IsSilent id (c, Message.fragment) = Unit

open_if_other : (id : ℕ) (c : Connection) → id ≢ c.id → open_if id c ≡ c
open_if_other id c n = elim (Bool-cases (c.id == id)) [
  | inl same ↦ absurd (ground arith)
  | inr other ↦ rw other refl
]

module _ (env : Env) (url : Bytes) (c : Connection) where
  message-find :
      (d : Connection) (m : Message) (w : World)
      → IsSilent c.id (d, m)
      → find url w.ws.connections ≡ some c
      → find url (on_message env (run_open env) d m w).1.ws.connections ≡ some c
  unfolding on_message
  message-find d (Message.message text) w silent found = ground arith
  message-find d Message.«open» w silent found =
      ap (λ (v : World). find url v.ws.connections) (opened_runs env d w)
      ∙ ap (find url) (run_open-Settles env d.on_open d.endpoint _).1.0
      ∙ find-open_each d.id url w.ws.connections
      ∙ ap (open_pending d.id) found
      ∙ ap some (open_if_other d.id c silent)
  message-find d (Message.close code reason) w silent found = found
  message-find d (Message.error reason) w silent found = found
  message-find d Message.ping w silent found = found
  message-find d Message.pong w silent found = found
  message-find d Message.fragment w silent found = found

  heard-find :
      (ms : List (Connection × Message)) (w : World)
      → All (IsSilent c.id) ms
      → find url w.ws.connections ≡ some c
      → find url (heard env ms w).ws.connections ≡ some c
  heard-find [] w silent found = found
  heard-find ((d, m) ∷ ms) w (now, later) found =
      heard-find ms _ later (message-find d m w now found)

  -- `wait` has not returned after any number of sleeps, with any messages of any sockets in each
  -- of them, when one connection of the map, with a socket, has not been open and no message says
  -- that it has opened: its errors, its closing, and the end of all other connections do not end
  -- the loop.
  pub wait_blocked :
      (sleeps : List (List (Connection × Message))) (w : World)
      → find url w.ws.connections ≡ some c
      → c.was_open ≡ false
      → c.ws ≡ some (new_socket url)
      → All (All (IsSilent c.id)) sleeps
      → wait env (map (heard env) sleeps) w ≡ none
  unfolding wait wait_turn
  wait_blocked [] w found shut socket silent =
      rw (is_empty_map-find url w.ws.connections c found) refl
  wait_blocked (ms ∷ sleeps) w found shut socket (now, later) =
      let told = heard env ms w in
      rw (is_empty_map-find url w.ws.connections c found) (
        wait_blocked sleeps (wait_turn env told)
          (sweep-find env url c told.ws.connections told (heard-find ms w now found) shut socket)
          shut socket later)
