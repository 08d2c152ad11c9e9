-- ===== src/System/Feeds.antt =====
-- The calls of a client that open a feed.
use crypto_con.Base.{ap, ℕ, Bytes, codes, List, [], map, ◌≡◌, refl, ◌∙◌}
use crypto_con.Types.{TokenPair}
use crypto_con.Types.StdMap.{token_pair_key}
use crypto_con.System.Grows.{SameSymbols}
use crypto_con.Utils.Double.{Double}
use crypto_con.World.{World, Env, OnOpen, no_op, binance_user_data, kraken_trades}
use crypto_con.Exec.{Outcome, ok}
use crypto_con.Websocket.{connect_endpoint}
use crypto_con.Websocket.Changes.{Rehashes}
use crypto_con.Websocket.Invariant.{IsWellFormed}
use crypto_con.Websocket.Steps.{by_same}
use crypto_con.Websocket.Directory.Refines.{connect-Keeps}
use crypto_con.Binance.Feeds
use crypto_con.Binance.Feeds.{user_host, stream_host, connect_feed, feed_path, append_streams}
use crypto_con.Binance.Feeds.Paths.{feed_path_lem, path_of, stream_name}
use crypto_con.Clients
use crypto_con.Kraken
use crypto_con.Kraken.{append_pairs, trade_subscription}
use crypto_con.Kraken.Trades.{trade_subscription_lem, trades_message, quoted}
use crypto_con.System.{Feed, open_feed}
use crypto_con.System.Symbols.{SameKraken, feed_path-symbols, trade_subscription-symbols}

-- What opening a feed leaves: the keys, the requests, the symbols, and a well-formed map of sockets.
pub record Opens (w w' : World) : Type 0 where
  pub api_key : w'.api_key ≡ w.api_key
  pub secret_key : w'.secret_key ≡ w.secret_key
  pub requests : w'.rest.requests ≡ w.rest.requests
  pub symbols : SameSymbols w w'
  pub kraken_symbols : SameKraken w w'
  pub sockets : IsWellFormed w'

module _ (env : Env) where
  -- A feed of streams is a connection, in a state where only the symbol map may be another.
  connect_feed_state :
      (stream : Bytes) (tokens : List TokenPair) (callback : ℕ) (w : World)
      → connect_feed env stream tokens callback w
        ≡ connect_endpoint env callback stream_host
            (path_of (map (stream_name stream w.binance_pairs) tokens))
            no_op
            (record w { binance_pairs = (feed_path stream tokens w).1.binance_pairs })
  connect_feed_state stream tokens callback w =
      let named = record w { binance_pairs = (feed_path stream tokens w).1.binance_pairs } in
      let path = path_of (map (stream_name stream w.binance_pairs) tokens) in
      let (found, same) = feed_path_lem stream tokens w in
      let e : feed_path stream tokens w ≡ (ok path, named) = cc (found, same) in rw e refl

  connect_feed-requests :
      (stream : Bytes) (tokens : List TokenPair) (callback : ℕ) (w : World)
      → (connect_feed env stream tokens callback w).1.rest.requests ≡ w.rest.requests
  unfolding connect_endpoint
  connect_feed-requests stream tokens callback w =
      ap (λ (x : Outcome (Unit {0}) × World). x.1.rest.requests)
        (connect_feed_state stream tokens callback w)

  -- The feed of Kraken's trades in the same way.
  kraken_trade_state :
      (tokens : List TokenPair) (callback : ℕ) (w : World)
      → Kraken.connect_trade_feed env tokens callback w
        ≡ connect_endpoint env callback Kraken.ws_host []
            (kraken_trades (trades_message (map (quoted w.kraken_pairs) tokens)))
            (record w { kraken_pairs = (trade_subscription tokens w).1.kraken_pairs })
  unfolding Kraken.connect_trade_feed
  kraken_trade_state tokens callback w =
      let named = record w { kraken_pairs = (trade_subscription tokens w).1.kraken_pairs } in
      let message = trades_message (map (quoted w.kraken_pairs) tokens) in
      let (found, same) = trade_subscription_lem tokens w in
      let e : trade_subscription tokens w ≡ (ok message, named) = cc (found, same) in rw e refl

  pub open_feed-requests :
      (W : Type 0) ⦃d : Double W⦄ (feed : Feed) (w : World)
      → (open_feed W env feed w).rest.requests ≡ w.rest.requests
  unfolding open_feed Clients.connect_user_data_feed Clients.connect_depth_feed
      Clients.connect_trade_feed Feeds.connect_user_data_feed Feeds.connect_depth_feed
      Feeds.connect_trade_feed Kraken.connect_depth_feed connect_endpoint
  open_feed-requests W (Feed.user_data callback path id window) w = refl
  open_feed-requests W (Feed.depth tokens callback) w =
      connect_feed-requests (codes "@depth") tokens callback w
  open_feed-requests W (Feed.trades tokens callback) w =
      connect_feed-requests (codes "@aggTrade") tokens callback w
  open_feed-requests W (Feed.kraken_depth tokens callback) w = refl
  open_feed-requests W (Feed.kraken_trade tokens callback) w =
      ap (λ (x : Outcome (Unit {0}) × World). x.1.rest.requests)
        (kraken_trade_state tokens callback w)

module _ (env : Env) (r : Rehashes env.sockets) where
  connect_endpoint-Opens :
      (callback : ℕ) (host path : Bytes) (on_open : OnOpen) (w : World)
      → IsWellFormed w
      → Opens w (connect_endpoint env callback host path on_open w).1
  unfolding connect_endpoint
  connect_endpoint-Opens callback host path on_open w h = record {
    api_key = refl;
    secret_key = refl;
    requests = refl;
    symbols = λ p. refl;
    kraken_symbols = λ p. refl;
    sockets = (connect-Keeps env w h callback host path on_open r).2;
  }

  connect_feed-Opens :
      (stream : Bytes) (tokens : List TokenPair) (callback : ℕ) (w : World)
      → IsWellFormed w
      → Opens w (connect_feed env stream tokens callback w).1
  connect_feed-Opens stream tokens callback w h =
      let named = record w { binance_pairs = (feed_path stream tokens w).1.binance_pairs } in
      let path = path_of (map (stream_name stream w.binance_pairs) tokens) in
      let opened =
        connect_endpoint-Opens callback stream_host path no_op named
          (by_same w named (refl, refl, refl) h) in
      rw (connect_feed_state env stream tokens callback w) (record {
        api_key = opened.api_key;
        secret_key = opened.secret_key;
        requests = opened.requests;
        symbols = λ p. opened.symbols p ∙ feed_path-symbols stream tokens w p;
        kraken_symbols = opened.kraken_symbols;
        sockets = opened.sockets;
      })

  kraken_trade-Opens :
      (tokens : List TokenPair) (callback : ℕ) (w : World)
      → IsWellFormed w
      → Opens w (Kraken.connect_trade_feed env tokens callback w).1
  kraken_trade-Opens tokens callback w h =
      let named = record w { kraken_pairs = (trade_subscription tokens w).1.kraken_pairs } in
      let message = trades_message (map (quoted w.kraken_pairs) tokens) in
      let opened =
        connect_endpoint-Opens callback Kraken.ws_host [] (kraken_trades message) named
          (by_same w named (refl, refl, refl) h) in
      rw (kraken_trade_state env tokens callback w) (record {
        api_key = opened.api_key;
        secret_key = opened.secret_key;
        requests = opened.requests;
        symbols = opened.symbols;
        kraken_symbols = λ p. opened.kraken_symbols p ∙ trade_subscription-symbols tokens w p;
        sockets = opened.sockets;
      })

  module _ (W : Type 0) ⦃d : Double W⦄ where
    pub open_feed-Opens :
        (feed : Feed) (w : World) → IsWellFormed w → Opens w (open_feed W env feed w)
    unfolding open_feed Clients.connect_user_data_feed Clients.connect_depth_feed
        Clients.connect_trade_feed Feeds.connect_user_data_feed Feeds.connect_depth_feed
        Feeds.connect_trade_feed Kraken.connect_depth_feed
    open_feed-Opens (Feed.user_data callback path id window) w h =
        connect_endpoint-Opens callback user_host path (binance_user_data id window) w h
    open_feed-Opens (Feed.depth tokens callback) w h =
        connect_feed-Opens (codes "@depth") tokens callback w h
    open_feed-Opens (Feed.trades tokens callback) w h =
        connect_feed-Opens (codes "@aggTrade") tokens callback w h
    open_feed-Opens (Feed.kraken_depth tokens callback) w h =
        connect_endpoint-Opens callback Kraken.ws_host [] no_op w h
    open_feed-Opens (Feed.kraken_trade tokens callback) w h = kraken_trade-Opens tokens callback w h
