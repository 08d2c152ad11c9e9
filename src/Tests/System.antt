-- ===== src/Tests/System.antt =====
-- A client that cancels an order, asks for the time and opens a socket.
use crypto_con.Base.{ℕ, codes, List, [], ◌∷◌, map, ◌≡◌, refl, none, some}
use crypto_con.Types.{TokenPair}
use crypto_con.World.{World, no_op}
use crypto_con.Exec.{dummy}
use crypto_con.Rest.{connect}
use crypto_con.Websocket.{start_connection}
use crypto_con.Websocket.Steps.{starting}
use crypto_con.Clients.{construct, binance_spot}
use crypto_con.System.{Call, Feed, SystemStep, Runs, perform, open_feed}
use crypto_con.Kraken.{connect_trade_feed}
use crypto_con.Kraken.Trades.{IsTraded, quoted, trades_message}
use crypto_con.Kraken.Receives.{receive_trades}
use crypto_con.System.Trades.{construct-receive_trades}
use crypto_con.System.Safety.{IsSafe, construct-IsSafe}
use crypto_con.Exec.{caller}
use crypto_con.System.Placed.{orders}
use crypto_con.System.Placed.Once.{asked, construct-orders}
use crypto_con.Tests.Fixtures.{market_order}
use crypto_con.Tests.Fixtures.{whole, env, rehashes}

abbrev made : World
made = (construct env (binance_spot env ⦃d = whole⦄) (codes "key") (codes "secret")).1

abbrev opened : World
opened = start_connection 3 (codes "a") (codes "/b") no_op made

idle : made.ws.pending ≡ none
unfolding construct connect
idle = refl

abbrev cancels : Call ℕ
cancels = Call.cancel TokenPair.btcusd 17 dummy

abbrev asks : Call ℕ
asks = Call.server_time

abbrev user_feed : Feed
user_feed = Feed.user_data 4 (codes "/ws-api/v3") 1 5000

construct-IsSafe_example :
    IsSafe env
      (codes "key")
      (codes "secret")
      (open_feed ℕ env user_feed (perform env asks (perform env cancels opened)))
construct-IsSafe_example =
    construct-IsSafe {W = ℕ} env (binance_spot env ⦃d = whole⦄) (codes "key") (codes "secret") _
      rehashes
      (Runs.next
        (Runs.next
          (Runs.next
            (Runs.next Runs.start
              (SystemStep.socket (starting 3 (codes "a") (codes "/b") no_op idle)))
            (SystemStep.call cancels))
          (SystemStep.call asks))
        (SystemStep.feed user_feed))

abbrev sends : Call ℕ
sends = Call.send_spot market_order caller

abbrev trading : Runs ℕ env made (perform env sends (perform env cancels (perform env sends made)))
trading =
    Runs.next (Runs.next (Runs.next Runs.start (SystemStep.call sends)) (SystemStep.call cancels))
      (SystemStep.call sends)

construct-orders_example :
    orders (perform env sends (perform env cancels (perform env sends made))).rest.requests ≡ 2
unfolding asked
construct-orders_example =
    construct-orders {W = ℕ} env (binance_spot env ⦃d = whole⦄) (codes "key") (codes "secret") _
      trading

-- After two orders and a cancellation.
abbrev traded : World
traded = perform env sends (perform env cancels (perform env sends made))

abbrev both : List TokenPair
both = TokenPair.btcusd ∷ TokenPair.ethusd ∷ []

construct-receive_trades_example :
    IsTraded (map (quoted traded.kraken_pairs) both) 3 traded (connect_trade_feed env both 3 traded)
    × (receive_trades (trades_message (map (quoted traded.kraken_pairs) both)) ≡ some both)
construct-receive_trades_example =
    construct-receive_trades {W = ℕ} env (binance_spot env ⦃d = whole⦄) (codes "key")
      (codes "secret") traded 3 both rehashes trading
