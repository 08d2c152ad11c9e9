-- ===== src/Examples/Subscribed.antt =====
-- What the programs under examples/ send when their feed opens.
use crypto_con.Base.{
  ℕ, Bytes, codes, List, [], ◌∷◌, ◌++◌, some, ◌≡◌, refl, sym, ap, ◌∙◌, arith, if◌then◌else◌, All,
}
use crypto_con.Types.StdMap.{find, text_key}
use crypto_con.World.{World, Env, Connection, no_op, kraken_trades}
use crypto_con.Websocket.{Connections, log_line}
use crypto_con.Websocket.Events.{Message, on_message, open_each, set_was_open}
use crypto_con.Websocket.Invariant.{IsWellFormed}
use crypto_con.Websocket.Steps.{by_same, set_was_open-IsWellFormed}
use crypto_con.Clients.{run_open}
use crypto_con.Clients.Subscription.{opened_runs, open_if-id, kraken_subscription_first}
use crypto_con.Examples.Waiting.{IsConnected}

-- The messages that a handler has sent on the socket of the feed, if it took them.
abbrev pub sent_first : Env → World → Bytes → List (ℕ × Bytes)
sent_first env w message = if env.sockets.send w.ws.sends then (0, message) ∷ [] else []

module _ (env : Env) (feed : Connection) (w : World) (connected : IsConnected feed w) where
  -- The state in which the handler of the feed runs.
  abbrev greeted : World
  greeted =
      log_line (codes "Websocket connection to " ++ feed.endpoint ++ codes " established.")
        (set_was_open feed.id w)

  greeted-IsWellFormed : IsWellFormed greeted
  greeted-IsWellFormed =
      by_same (set_was_open feed.id w) greeted (refl, refl, refl)
        (set_was_open-IsWellFormed feed.id w connected.well_formed)

  pub no_op-outbox :
      feed.on_open ≡ no_op
      → (on_message env (run_open env) feed Message.«open» w).1.ws.outbox ≡ w.ws.outbox
  unfolding run_open
  no_op-outbox handler = ap (λ (v : World). v.ws.outbox) (opened_runs env feed w) ∙ rw handler refl

  -- The map has one connection at least, and only connections with the id of the feed.
  from_first :
      (message : Bytes) (m : Connections)
      → m ≡ w.ws.connections
      → find feed.endpoint m ≡ some feed
      → All (λ e. e.1.id ≡ 0) m
      → (run_open env (kraken_trades message) feed.endpoint greeted).1.ws.outbox
        ≡ w.ws.outbox ++ sent_first env w message
  unfolding run_open
  from_first message [] e found alone = absurd (ground arith)
  from_first message ((k, c) ∷ m) e found (id, _) =
      let first : greeted.ws.connections ≡ (k, _) ∷ open_each feed.id m =
        ap (open_each feed.id) (sym e) in
      let (_, sent, _) =
        kraken_subscription_first env message feed.endpoint greeted greeted-IsWellFormed k _
          (open_each feed.id m) first in
      sent
      ∙ ap (λ n. w.ws.outbox ++ (if env.sockets.send w.ws.sends then (n, message) ∷ [] else []))
          ((open_if-id feed.id c).0 ∙ id)

  pub kraken-outbox :
      (message : Bytes)
      → feed.on_open ≡ kraken_trades message
      → (on_message env (run_open env) feed Message.«open» w).1.ws.outbox
        ≡ w.ws.outbox ++ sent_first env w message
  kraken-outbox message handler =
      ap (λ (v : World). v.ws.outbox) (opened_runs env feed w)
      ∙ rw handler (from_first message w.ws.connections refl connected.found connected.alone)
