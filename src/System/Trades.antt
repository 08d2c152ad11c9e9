-- ===== src/System/Trades.antt =====
-- The trade feed of Kraken in any state that a client reaches.
use crypto_con.Base.{ℕ, Bytes, List, map, ◌≡◌}
use crypto_con.Types.{TokenPair}
use crypto_con.Utils.Double.{Double}
use crypto_con.World.{World, Env}
use crypto_con.Websocket.Changes.{Rehashes}
use crypto_con.Kraken.{connect_trade_feed}
use crypto_con.Kraken.Trades.{IsTraded, quoted, trades_message}
use crypto_con.Kraken.Receives.{receive_trades, tradable, connect_trade_feed-receive_trades}
use crypto_con.Clients.{Policy, construct}
use crypto_con.System.{Runs}
use crypto_con.System.Safety.{construct-IsSafe}

-- Whatever a client has done since its construction, in any interleaving with its sockets,
-- `connectTradeFeed` of Kraken then connects to Kraken's host, with no path, and its on-open handler
-- holds the message from which the exchange reads the tokens, in their order; it refuses the message
-- when one of them is the pair that has no symbol. The connections to other URLs stay. An insertion
-- into the map of connections only reorders it.
pub construct-receive_trades :
    {P W : Type 0} ⦃d : Double W⦄ (env : Env) (policy : Policy P) (key secret : Bytes) (w : World)
    (callback : ℕ) (tokens : List TokenPair)
    → Rehashes env.sockets
    → Runs W env (construct env policy key secret).1 w
    → let names = map (quoted w.kraken_pairs) tokens in
      IsTraded names callback w (connect_trade_feed env tokens callback w)
      × (receive_trades (trades_message names) ≡ tradable tokens)
construct-receive_trades env policy key secret w callback tokens r run =
    let safe = construct-IsSafe env policy key secret w r run in
    connect_trade_feed-receive_trades env callback w tokens r safe.sockets safe.kraken_symbols
