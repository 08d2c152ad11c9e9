-- ===== src/Tests/Bag.antt =====
-- A session of the WebSocket client, and the bag of its connections.
use crypto_con.Base.{codes, List, [], ◌∷◌, ◌≡◌, refl}
use crypto_con.World.{no_op, closed}
use crypto_con.Websocket.{new_connection, connect_endpoint, disconnect}
use crypto_con.Websocket.Events.{Message, on_message}
use crypto_con.Websocket.Loop.{wait_turn, sweep}
use crypto_con.Websocket.Bag.{Change, apply_all}
use crypto_con.Websocket.Bag.Refines.{Counts, apply_all-Counts}
use crypto_con.Clients.{run_open}
use crypto_con.Tests.Fixtures.{env, start, rehashes, start-IsWellFormed}

-- Two connections, of which the first opens and closes; the other is disconnected.
abbrev session : List Change
session =
    Change.connects 3 (codes "a") (codes "/b") no_op
    ∷ Change.connects 4 (codes "c") (codes "/d") no_op
    ∷ Change.hears (new_connection 0 3 (codes "wss://a/b") no_op) Message.«open»
    ∷ Change.turns (λ id. closed)
    ∷ Change.disconnects (codes "wss://c/d")
    ∷ []

apply_all-Counts_example : Counts env session start
apply_all-Counts_example = apply_all-Counts env session start rehashes start-IsWellFormed

session_counts : (apply_all env session start).0 ≡ 1 ∷ 2 ∷ 2 ∷ 1 ∷ 0 ∷ []
unfolding connect_endpoint on_message run_open wait_turn sweep disconnect
session_counts = refl
