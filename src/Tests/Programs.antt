-- ===== src/Tests/Programs.antt =====
-- The programs under examples/ with two texts.
use crypto_con.Base.{some, ◌⊎◌, ◌≡◌, ℕ, Bytes, codes, List, [], ◌∷◌, ◌++◌, map, refl, arith}
use crypto_con.Types.{TokenPair, SpotParams}
use crypto_con.Kraken.Receives.{receive_trades}
use crypto_con.Utils.Number.{decimal}
use crypto_con.World.{Env, Connection, ReadyState, closed, no_op}
use crypto_con.Websocket.{new_connection}
use crypto_con.Websocket.Events.{Message}
use crypto_con.Clients.Blocking.{heard}
use crypto_con.Examples.Stuck.{programs_stuck}
use crypto_con.Websocket.Wait.{SayFrom}
use crypto_con.Clients.{binance_spot, kraken}
use crypto_con.Examples.{
  subscribe_feeds, subscribing_line, trade_line, binance_trade_feed_mixin, kraken_trade_feed,
}
use crypto_con.Examples.Connecting.{tells, feed_session}
use crypto_con.Examples.Started.{mixin_feed, kraken_feed}
use crypto_con.Examples.Finishes.{Prints, programs-Prints}
use crypto_con.Exec.{system_error}
use crypto_con.Rest.Exchange.{Connects}
use crypto_con.Examples.{Ending}
use crypto_con.Examples.Uncaught.{FirstFailure, unreached, programs_uncaught}
use crypto_con.Tests.Fixtures.{whole, env, sockets, connects, rehashes}

-- The sockets are closed when they are asked.
abbrev shut : Env
shut = record env { sockets = record sockets { ready = λ n id. closed } }

abbrev state : ℕ → ReadyState
state id = closed

shut-SayFrom : SayFrom shut 0 state
shut-SayFrom i id le = refl

abbrev texts : List Bytes
texts = codes "{\"p\":\"1\"}" ∷ codes "{\"p\":\"2\"}" ∷ []

abbrev subscription : Bytes
subscription =
    codes "{\"event\":\"subscribe\",\"pair\":[\"XBT/USD\",\"ETH/USD\"],"
    ++ codes "\"subscription\":{\"name\":\"trade\"}}"

programs-Prints_example :
    Prints shut mixin_feed
      (subscribe_feeds shut {P = SpotParams ℕ} (binance_spot shut ⦃d = whole⦄))
      (binance_trade_feed_mixin shut ℕ ⦃d = whole⦄
        (tells shut mixin_feed (feed_session texts 1000 (codes "bye")) ∷ []))
      (subscribing_line
        ∷ codes "[MSG #1] {\"p\":\"1\"}"
        ∷ codes "[MSG #2] {\"p\":\"2\"}"
        ∷ codes "Total messages received: 2"
        ∷ [])
      []
    × Prints shut kraken_feed
        (subscribe_feeds shut {P = SpotParams ℕ} (kraken shut))
        (kraken_trade_feed shut ℕ
          (tells shut kraken_feed (feed_session texts 1000 (codes "bye")) ∷ []))
        (subscribing_line ∷ map trade_line texts)
        ((0, subscription) ∷ [])
    × (receive_trades subscription ≡ some (TokenPair.btcusd ∷ TokenPair.ethusd ∷ []))
unfolding decimal
programs-Prints_example =
    programs-Prints ℕ shut state texts 1000 (codes "bye") [] rehashes (connects 0) shut-SayFrom refl
      (omega arith)

-- The name of the REST host does not resolve.
abbrev unplugged : Env
unplugged = record env {
  network = record env.network { resolve = λ n. some (codes "Host not found") };
}

programs_uncaught_example :
    Connects unplugged.network 0
    ⊎ ((m : Bytes) × FirstFailure unplugged.network m
        × (binance_trade_feed_mixin unplugged ℕ ⦃d = whole⦄ []
            ≡ Ending.uncaught (system_error m) (unreached (codes "testnet.binance.vision")))
        × (kraken_trade_feed unplugged ℕ []
            ≡ Ending.uncaught (system_error m) (unreached (codes "api.kraken.com"))))
programs_uncaught_example = programs_uncaught ℕ unplugged []

-- The feed of either program is refused twice, while another connection opens.
abbrev refused : List (List (Connection × Message))
refused =
    ((mixin_feed, Message.error (codes "refused"))
      ∷ (kraken_feed, Message.error (codes "refused"))
      ∷ [])
    ∷ ((new_connection 1 3 (codes "wss://a/b") no_op, Message.«open») ∷ [])
    ∷ []

programs_stuck_example :
    (binance_trade_feed_mixin env ℕ ⦃d = whole⦄ (map (heard env) refused) ≡ Ending.waiting)
    × (kraken_trade_feed env ℕ (map (heard env) refused) ≡ Ending.waiting)
programs_stuck_example =
    programs_stuck ℕ env refused rehashes (connects 0) ((tt, (tt, tt)), ((omega arith, tt), tt))
