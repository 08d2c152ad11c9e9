-- ===== src/Clients/Subscription.antt =====
-- Which subscriptions of the policies reach the exchange.
use crypto_con.Base.{
  ℕ, ◌%◌, ◌^◌, Bytes, codes, true, false, ◌||◌, is_empty, [], ◌∷◌, ◌++◌, Option, none, some, ◌≡◌,
  refl, ap, ◌∙◌, subst, Bool-cases, inl, inr, ◌==◌, if◌then◌else◌, All,
}
use crypto_con.Types.StdMap.{find, text_key}
use crypto_con.World.{World, Env, Connection, Socket, binance_user_data}
use crypto_con.Exec.{ok}
use crypto_con.Websocket.{
  Connections, send, send_first, start_connection, insert_connection, insert_pending, assign,
  url_of, log_line, new_connection, new_socket,
}
use crypto_con.Websocket.Events.{Message, on_message, open_if, set_was_open}
use crypto_con.Websocket.Changes.{Rehashes}
use crypto_con.Websocket.Invariant.{IsEntry, IsWellFormed}
use crypto_con.Websocket.Lookup.{find-assign}
use crypto_con.Binance.Feeds.{user_host, user_data_opened, subscription}
use crypto_con.Kraken.{trades_opened}
use crypto_con.Websocket.Events.{open_pending}
use crypto_con.Websocket.Lookup.{find-open_each}
use crypto_con.Clients.{run_open}
use crypto_con.Clients.Handlers.{run_open-Settles}

-- The client has both keys.
abbrev pub HasKeys : World → Type 0
HasKeys w = (is_empty w.api_key || is_empty w.secret_key) ≡ false

pub open_if-id : (id : ℕ) (c : Connection) → ((open_if id c).id ≡ c.id) × ((open_if id c).ws ≡ c.ws)
open_if-id id c = elim (Bool-cases (c.id == id)) [
  | inl same ↦ rw (same) (refl, refl)
  | inr other ↦ rw (other) (refl, refl)
]

-- The subscription that the handler makes in this state.
abbrev pub made : Env → ℕ → ℕ → World → Bytes
made env id window w = subscription env.digest id window w (env.clock w.clock_reads % 2 ^ 64)

module _ (env : Env) (id window : ℕ) (url : Bytes) (w : World) (keys : HasKeys w) where
  pub user_data-sent :
      (c : Connection) (s : Socket)
      → find url w.ws.connections ≡ some c
      → c.ws ≡ some s
      → env.sockets.send w.ws.sends ≡ true
      → (user_data_opened env id window url w).1.ws.outbox
        ≡ w.ws.outbox ++ (c.id, made env id window w) ∷ []
  unfolding user_data_opened send
  user_data-sent c s found there taken = rw (keys, found, there, taken) refl

  user_data-lost :
      find url w.ws.connections ≡ none
      → (user_data_opened env id window url w).1.ws.outbox ≡ w.ws.outbox
  unfolding user_data_opened send
  user_data-lost missing = rw (keys, missing) refl

pub opened_runs :
    (env : Env) (c : Connection) (w : World)
    → (on_message env (run_open env) c Message.«open» w).1
      ≡ (run_open env c.on_open c.endpoint (
          log_line
            (codes "Websocket connection to " ++ c.endpoint ++ codes " established.")
            (set_was_open c.id w))).1
unfolding on_message
opened_runs env c w =
    rw
      ((run_open-Settles env c.on_open c.endpoint (
        log_line (codes "Websocket connection to " ++ c.endpoint ++ codes " established.")
          (set_was_open c.id w))).0)
      refl

insert-outbox :
    (env : Env) (p : Option Connection) (w : World)
    → (insert_pending env.sockets p w).ws.outbox ≡ w.ws.outbox
insert-outbox env none w = refl
insert-outbox env (some c) w = refl

module _ (env : Env) (callback : ℕ) (path : Bytes) (id window : ℕ) (w : World) where
  abbrev url : Bytes
  url = url_of user_host path

  -- The connection that `connectUserDataFeed` starts, and the state when it has been started.
  abbrev pub user_connection : Connection
  user_connection = new_connection w.ws.next_id callback url (binance_user_data id window)

  abbrev pub user_started : World
  user_started = start_connection callback user_host path (binance_user_data id window) w

  -- Its handshake ends before, or after, the connection is put into the map.
  abbrev pub opened_early : World
  opened_early =
      insert_connection env
        (on_message env (run_open env) user_connection Message.«open» user_started).1

  abbrev pub opened_late : World
  opened_late =
      (on_message env (run_open env) user_connection Message.«open»
        (insert_connection env user_started)).1

  early : HasKeys w → find url w.ws.connections ≡ none → opened_early.ws.outbox ≡ w.ws.outbox
  unfolding run_open
  early keys missing =
      insert-outbox env _ _
      ∙ ap (λ (v : World). v.ws.outbox) (opened_runs env user_connection user_started)
      ∙ user_data-lost env id window url _ keys (
          find-open_each w.ws.next_id url w.ws.connections ∙ ap (open_pending w.ws.next_id) missing)

  late :
      HasKeys w
      → Rehashes env.sockets
      → IsWellFormed w
      → env.sockets.send w.ws.sends ≡ true
      → opened_late.ws.outbox ≡ w.ws.outbox ++ (w.ws.next_id, made env id window w) ∷ []
  unfolding run_open
  late keys r h taken =
      let found = (find-assign url user_connection env.sockets r w.ws.connections h.keys).0 in
      ap (λ (v : World). v.ws.outbox)
        (opened_runs env user_connection (insert_connection env user_started))
      ∙ user_data-sent env id window url _ keys (open_if w.ws.next_id user_connection)
          (new_socket url)
          (find-open_each w.ws.next_id url (assign env.sockets url user_connection w.ws.connections)
            ∙ ap (open_pending w.ws.next_id) found)
          (open_if-id w.ws.next_id user_connection).1 taken
      ∙ ap (λ i. w.ws.outbox ++ (i, made env id window w) ∷ [])
          (open_if-id w.ws.next_id user_connection).0

  -- When the user data feed of a new URL is connected, its subscription is sent to its own socket if
  -- the handshake ends after the connection was put into the map; if it ends between the start of
  -- the socket and that insertion, nothing is sent, though the socket would have taken it. The
  -- client has its keys and is well-formed, and an insertion only reorders the map.
  pub subscription_race :
      HasKeys w
      → Rehashes env.sockets
      → IsWellFormed w
      → find url w.ws.connections ≡ none
      → env.sockets.send w.ws.sends ≡ true
      → (opened_late.ws.outbox ≡ w.ws.outbox ++ (w.ws.next_id, made env id window w) ∷ [])
        × (opened_early.ws.outbox ≡ w.ws.outbox)
  subscription_race keys r h missing taken = (late keys r h taken, early keys missing)

-- The Kraken handler sends its subscription on the socket of the first connection of the map, which
-- need not be the one that has opened, and logs success whether or not the message was taken. The
-- client is well-formed.
pub kraken_subscription_first :
    (env : Env) (message url : Bytes) (w : World)
    → IsWellFormed w
    → (k : Bytes) (c : Connection) (m : Connections) → w.ws.connections ≡ (k, c) ∷ m
    → let (r, w') = trades_opened env message url w in
      (r ≡ ok tt)
      × (w'.ws.outbox
          ≡ w.ws.outbox ++ (if env.sockets.send w.ws.sends then (c.id, message) ∷ [] else []))
      × (w'.log ≡ w.log ++ (codes "Subscribed to Kraken trade feed on " ++ url) ∷ [])
unfolding trades_opened send_first
kraken_subscription_first env message url w h k c m e =
    let entry = (subst (All (λ x. IsEntry w.ws.next_id x.0 x.1)) e h.entries).0 in
    rw (e, entry.socket) (refl, refl, refl)
