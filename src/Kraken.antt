-- ===== src/Kraken.antt =====
-- src/policies/krakenpolicy.h
pub mod Receives
pub mod Trades
use crypto_con.Base.{ℕ, Bytes, codes, List, [], ◌∷◌, ◌++◌}
use crypto_con.Types.{TokenPair}
use crypto_con.Types.StdMap.{index, token_pair_key}
use crypto_con.World.{World, Env, OnOpen, no_op, kraken_trades}
use crypto_con.Exec.{Exec, ok, pure, logger, ◌>>=◌, ◌>>◌}
use crypto_con.Websocket.{connect_endpoint, send_first}

-- `restHost` and `wsHost`
abbrev pub rest_host : Bytes
rest_host = codes "api.kraken.com"

abbrev pub ws_host : Bytes
ws_host = codes "ws.kraken.com"

-- `Kraken::tokenPairToString[token]`
abbrev pub kraken_symbol : TokenPair → Exec Bytes
kraken_symbol token w =
    let (symbol, pairs) = index token w.kraken_pairs in
    (ok symbol, record w { kraken_pairs = pairs })

-- The quoted names of the tokens behind `s`, each after the first with a comma before it.
unfoldable pub append_pairs : Bytes → Bytes → List TokenPair → Exec Bytes
append_pairs s comma [] = pure s
append_pairs s comma (token ∷ tokens) = do
  name ← kraken_symbol token
  append_pairs (s ++ comma ++ codes "\"" ++ name ++ codes "\"") (codes ",") tokens

unfoldable pub trade_subscription : List TokenPair → Exec Bytes
unfolding append_pairs
trade_subscription tokens = do
  s ← append_pairs (codes "{\"event\":\"subscribe\",\"pair\":[") [] tokens
  pure (s ++ codes "],\"subscription\":{\"name\":\"trade\"}}")

module _ (env : Env) where
  -- The on-open handler of `connectTradeFeed`.
  unfoldable pub trades_opened : Bytes → Bytes → Exec (Unit {0})
  trades_opened message url = do
    send_first env message
    logger (codes "Subscribed to Kraken trade feed on " ++ url)

  -- `connectTradeFeed`
  unfoldable pub connect_trade_feed : List TokenPair → ℕ → Exec (Unit {0})
  connect_trade_feed tokens callback = do
    message ← trade_subscription tokens
    connect_endpoint env callback ws_host [] (kraken_trades message)

  -- `connectDepthFeed`, with the defaults for the path and the handler
  unfoldable pub connect_depth_feed : List TokenPair → ℕ → Exec (Unit {0})
  connect_depth_feed tokens callback = connect_endpoint env callback ws_host [] no_op
