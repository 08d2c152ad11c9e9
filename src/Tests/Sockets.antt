-- ===== src/Tests/Sockets.antt =====
-- The WebSocket client with one connection.
use crypto_con.Base.{
  Bytes, codes, Bool, true, List, [], ◌∷◌, ◌++◌, map, none, some, ◌≡◌, ◌≢◌, ◌↔◌, refl, arith,
}
use crypto_con.Types.{TokenPair}
use crypto_con.Types.StdMap.{find, text_key}
use crypto_con.World.{World, Env, Connection, no_op, closed, other_exception}
use crypto_con.Exec.{ok, throw, foreign}
use crypto_con.Websocket.{new_connection, start_connection, insert_connection, send, disconnect}
use crypto_con.Websocket.Loop.{sweep, wait_turn, wait}
use crypto_con.Websocket.Events.{Message, on_message, set_was_open}
use crypto_con.Websocket.Invariant.{IsWellFormed}
use crypto_con.Websocket.Steps.{constructed, after, starting, inserting, disconnecting}
use crypto_con.Websocket.Operations.{Sent, send-Sent}
use crypto_con.Websocket.Wait.{alive, wait_turn-alive, turns, wait_finishes}
use crypto_con.Clients.Blocking.{heard, wait_blocked}
use crypto_con.Binance.Feeds.{connect_depth_feed, connect_trade_feed}
use crypto_con.Binance.Feeds.Paths.{IsFed, stream_name, feeds-IsFed}
use crypto_con.Kraken.{trades_opened}
use crypto_con.Rest.{connect}
use crypto_con.Clients.{run_open, construct, binance_spot}
use crypto_con.Clients.Messages.{Handled, on_message-Handled, construct-IsWellFormed}
use crypto_con.Clients.Access.{destroy}
use crypto_con.Clients.Stops.{StopsOnce}
use crypto_con.Clients.Stops.Ended.{Ended, construct-destroy}
use crypto_con.Clients.Subscription.{
  made, opened_early, opened_late, subscription_race, kraken_subscription_first,
}
use crypto_con.Tests.Fixtures.{whole, env, sockets, start, rehashes, start-IsWellFormed}

abbrev url : Bytes
url = codes "wss://a/b"

abbrev one : Connection
one = new_connection 0 3 url no_op

-- One connection, not yet open.
abbrev linked : World
linked = insert_connection env (start_connection 3 (codes "a") (codes "/b") no_op start)

linked-IsWellFormed : IsWellFormed linked
linked-IsWellFormed = record {
  entries = (record { endpoint = refl; socket = refl; given_out = omega arith }, tt);
  keys = (tt, tt);
  ids = (tt, tt);
  pending = tt;
}

send-Sent_example :
    let (r, w') = send env url (codes "hello") linked in
    (sent : Bool) × (r ≡ ok sent)
    × Sent url (codes "hello") linked sent w'
    × (w'.ws.connections ≡ linked.ws.connections)
    × ((sent ≡ true) ↔ ((find url linked.ws.connections ≢ none) × (env.sockets.send 0 ≡ true)))
send-Sent_example = send-Sent env url (codes "hello") linked linked-IsWellFormed

-- A client whose sockets are all closed, with a connection that has been open.
abbrev hung_up : Env
hung_up = record env { sockets = record sockets { ready = λ n id. closed } }

abbrev was_linked : World
was_linked = record linked {
  ws = record linked.ws { connections = (url, record one { was_open = true }) ∷ [] };
}

was_linked-IsWellFormed : IsWellFormed was_linked
was_linked-IsWellFormed = record {
  entries = (record { endpoint = refl; socket = refl; given_out = omega arith }, tt);
  keys = (tt, tt);
  ids = (tt, tt);
  pending = tt;
}

wait_turn-alive_example :
    (wait_turn hung_up was_linked).ws.connections ≡ alive (λ id. closed) was_linked.ws.connections
wait_turn-alive_example =
    wait_turn-alive hung_up (λ id. closed) was_linked was_linked-IsWellFormed (λ i id le. refl)

-- The connection opens during the second sleep, and its socket says that it is closed.
wait_finishes_example :
    (w' : World) × (wait hung_up ((λ w. w) ∷ set_was_open 0 ∷ []) linked ≡ some w')
    × (w'.ws.connections ≡ [])
unfolding turns wait_turn sweep
wait_finishes_example =
    wait_finishes hung_up (λ id. closed) ((λ w. w) ∷ []) (set_was_open 0) [] linked
      was_linked-IsWellFormed (λ i id le. refl) ((refl, refl), tt)

-- The connection is refused, and another one opens.
abbrev refused : List (List (Connection × Message))
refused =
    ((one, Message.error (codes "refused")) ∷ [])
    ∷ ((new_connection 1 3 url no_op, Message.«open») ∷ [])
    ∷ []

wait_blocked_example : wait hung_up (map (heard hung_up) refused) linked ≡ none
wait_blocked_example =
    wait_blocked hung_up url one refused linked refl refl refl ((tt, tt), ((omega arith, tt), tt))

feeds-IsFed_example :
    let tokens = TokenPair.btcusd ∷ TokenPair.ethusd ∷ [] in
    IsFed
      (map (stream_name (codes "@depth") start.binance_pairs) tokens)
      4
      start
      (connect_depth_feed env tokens 4 start)
    × IsFed
        (map (stream_name (codes "@aggTrade") start.binance_pairs) tokens)
        4
        start
        (connect_trade_feed env tokens 4 start)
feeds-IsFed_example =
    feeds-IsFed env rehashes 4 start start-IsWellFormed (TokenPair.btcusd ∷ TokenPair.ethusd ∷ [])

-- Callbacks that throw something else than a `std::exception`.
abbrev rude : Env
rude = record env { sockets = record sockets { callback = λ c s. some other_exception } }

on_message-Handled_example :
    Handled linked
      (throw foreign)
      ((3, codes "tick") ∷ [])
      (on_message rude (run_open rude) one (Message.message (codes "tick")) linked)
on_message-Handled_example = on_message-Handled rude one (Message.message (codes "tick")) linked

abbrev constructed_client : World
constructed_client = (construct env (binance_spot env ⦃d = whole⦄) (codes "key") (codes "secret")).1

idle : constructed_client.ws.pending ≡ none
unfolding construct connect
idle = refl

construct-IsWellFormed_example :
    IsWellFormed (start_connection 3 (codes "a") (codes "/b") no_op constructed_client)
construct-IsWellFormed_example =
    construct-IsWellFormed env (binance_spot env ⦃d = whole⦄) (codes "key") (codes "secret")
      (start_connection 3 (codes "a") (codes "/b") no_op constructed_client) rehashes
      (after constructed (starting 3 (codes "a") (codes "/b") no_op idle))

-- Two connections, of which the client has given up the first.
abbrev first_up : World
first_up =
    insert_connection env (start_connection 3 (codes "a") (codes "/b") no_op constructed_client)

abbrev both_up : World
both_up = insert_connection env (start_connection 3 (codes "a") (codes "/c") no_op first_up)

construct-destroy_example :
    StopsOnce (disconnect url both_up)
    × Ended (disconnect url both_up) (destroy env (disconnect url both_up))
construct-destroy_example =
    construct-destroy env (binance_spot env ⦃d = whole⦄) (codes "key") (codes "secret")
      (disconnect url both_up) rehashes
      (after
        (after
          (after
            (after (after constructed (starting 3 (codes "a") (codes "/b") no_op idle)) inserting)
            (starting 3 (codes "a") (codes "/c") no_op refl))
          inserting)
        (disconnecting url))

subscription_race_example :
    ((opened_late env 3 (codes "/ws-api/v3") 1 5000 start).ws.outbox
      ≡ (0, made env 1 5000 start) ∷ [])
    × ((opened_early env 3 (codes "/ws-api/v3") 1 5000 start).ws.outbox ≡ [])
subscription_race_example =
    subscription_race env 3 (codes "/ws-api/v3") 1 5000 start refl rehashes start-IsWellFormed refl
      refl

kraken_subscription_first_example :
    let (r, w') = trades_opened env (codes "subscribe") (codes "wss://ws.kraken.com") linked in
    (r ≡ ok tt)
    × (w'.ws.outbox ≡ (0, codes "subscribe") ∷ [])
    × (w'.log ≡ linked.log ++ codes "Subscribed to Kraken trade feed on wss://ws.kraken.com" ∷ [])
kraken_subscription_first_example =
    kraken_subscription_first env (codes "subscribe") (codes "wss://ws.kraken.com") linked
      linked-IsWellFormed url one [] refl
