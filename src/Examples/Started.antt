-- ===== src/Examples/Started.antt =====
-- The programs under examples/ from their start to the subscription.
use crypto_con.Base.{Bytes, codes, [], ◌≡◌, refl}
use crypto_con.Types.{SpotParams}
use crypto_con.Types.StdMap.{text_key}
use crypto_con.Utils.Double.{Double}
use crypto_con.World.{World, Env, Connection, no_op}
use crypto_con.Exec.{ok}
use crypto_con.Rest.{count_connect}
use crypto_con.Rest.Exchange.{Connects, connect_lem}
use crypto_con.Websocket.{
  new_connection, url_of, connect_endpoint, start_connection, insert_connection,
}
use crypto_con.Websocket.Changes.{Rehashes, assign-All}
use crypto_con.Websocket.Lookup.{find-assign}
use crypto_con.Websocket.Steps.{start_connection-IsWellFormed, insert_pending-IsWellFormed}
use crypto_con.Binance.Feeds
use crypto_con.Binance.Feeds.{stream_host, feed_path, append_streams}
use crypto_con.Binance.Endpoints.{binance_symbol}
use crypto_con.Utils.Lower.{to_lower}
use crypto_con.Kraken
use crypto_con.Kraken.{trade_subscription, append_pairs}
use crypto_con.Clients.{run_open}
use crypto_con.Examples.Waiting.{IsConnected}
use crypto_con.World.{OnOpen, kraken_trades}
use crypto_con.Clients.{kraken}
use crypto_con.Clients
use crypto_con.Clients.{binance_spot, construct, blank}
use crypto_con.Examples.{feed_callback, subscribe_feeds}

-- The programs before their subscription.
abbrev fresh : Bytes → World
fresh host = count_connect (blank host [] [])

abbrev started : Env → Bytes → Bytes → Bytes → OnOpen → World
started env rest_host host path on_open =
    insert_connection env (start_connection feed_callback host path on_open (fresh rest_host))

abbrev pub feed_of : Bytes → Bytes → OnOpen → Connection
feed_of host path on_open = new_connection 0 feed_callback (url_of host path) on_open

-- The connection of the one program, and of the other.
abbrev pub mixin_feed : Connection
mixin_feed = feed_of stream_host (codes "/stream?streams=btcusdt@aggTrade/ethusdt@aggTrade") no_op

abbrev pub kraken_message : Bytes
kraken_message =
    codes
      "{\"event\":\"subscribe\",\"pair\":[\"XBT/USD\",\"ETH/USD\"],\"subscription\":{\"name\":\"trade\"}}"

abbrev pub kraken_feed : Connection
kraken_feed = feed_of Kraken.ws_host [] (kraken_trades kraken_message)

abbrev pub mixin_started : Env → World
mixin_started env =
    started env (codes "testnet.binance.vision") stream_host
      (codes "/stream?streams=btcusdt@aggTrade/ethusdt@aggTrade") no_op

abbrev pub kraken_started : Env → World
kraken_started env = started env Kraken.rest_host Kraken.ws_host [] (kraken_trades kraken_message)

started-IsConnected :
    (env : Env) (rest_host host path : Bytes) (on_open : OnOpen)
    → Rehashes env.sockets
    → IsConnected (feed_of host path on_open) (started env rest_host host path on_open)
started-IsConnected env rest_host host path on_open r =
    let feed = feed_of host path on_open in
    let begun = start_connection feed_callback host path on_open (fresh rest_host) in
    record {
      id = refl;
      callback = refl;
      well_formed = insert_pending-IsWellFormed env begun begun.ws.pending r refl (
          start_connection-IsWellFormed feed_callback host path on_open (fresh rest_host)
            (record { entries = tt; keys = tt; ids = tt; pending = tt }));
      found = (find-assign feed.endpoint feed env.sockets r [] tt).0;
      alone = assign-All feed.endpoint feed env.sockets r (λ e. e.1.id ≡ 0) refl [] tt;
      quiet = refl;
    }

pub mixin_started-IsConnected :
    (env : Env) → Rehashes env.sockets → IsConnected mixin_feed (mixin_started env)
mixin_started-IsConnected env =
    started-IsConnected env (codes "testnet.binance.vision") stream_host
      (codes "/stream?streams=btcusdt@aggTrade/ethusdt@aggTrade") no_op

pub kraken_started-IsConnected :
    (env : Env) → Rehashes env.sockets → IsConnected kraken_feed (kraken_started env)
kraken_started-IsConnected env =
    started-IsConnected env Kraken.rest_host Kraken.ws_host [] (kraken_trades kraken_message)

module _ (W : Type 0) ⦃d : Double W⦄ (env : Env) (c : Connects env.network 0) where
  pub mixin_subscribed :
      subscribe_feeds env {P = SpotParams W} (binance_spot env) ≡ (ok tt, mixin_started env)
  unfolding construct Clients.connect_trade_feed Feeds.connect_trade_feed feed_path append_streams
      connect_endpoint binance_symbol to_lower
  mixin_subscribed = rw (connect_lem env (blank (codes "testnet.binance.vision") [] []) c) refl

  pub kraken_subscribed :
      subscribe_feeds env {P = SpotParams W} (kraken env) ≡ (ok tt, kraken_started env)
  unfolding construct Clients.connect_trade_feed Kraken.connect_trade_feed trade_subscription
      append_pairs connect_endpoint
  kraken_subscribed = rw (connect_lem env (blank Kraken.rest_host [] []) c) refl
