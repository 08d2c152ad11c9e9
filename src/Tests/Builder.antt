-- ===== src/Tests/Builder.antt =====
-- Orders that are built by concrete calls.
use crypto_con.Base.{ℕ, codes, List, [], ◌∷◌, ◌≡◌, map, true, arith}
use crypto_con.Types.{Side, OrderType, SpotParams, FuturesParams}
use crypto_con.OrderBuilder.{
  SpotCall, FuturesCall, fresh_spot, fresh_futures, build_spot, build_futures,
}
use crypto_con.OrderBuilder.Sent.{built_spot-Sends, built_futures-Receives}
use crypto_con.Binance.Query.Spec.{order_parameters, futures_parameters}
use crypto_con.Binance.Endpoints.Signed.{Receives}
use crypto_con.Binance.Endpoints.Orders.{Sends}
use crypto_con.Clients.{send_order, binance_spot, binance_futures}
use crypto_con.Exec.{caller}
use crypto_con.World.{post}
use crypto_con.Binance.Query.Decode.{decoded}
use crypto_con.Tests.Fixtures.{whole, whole_prints, env, start}

abbrev spot_calls : List (SpotCall ℕ)
spot_calls =
    SpotCall.price 7
    ∷ SpotCall.symbol (codes "BTCUSDT")
    ∷ SpotCall.price 9
    ∷ SpotCall.type OrderType.limit
    ∷ []

abbrev priced : SpotParams ℕ
priced = record (fresh_spot Side.flat OrderType.limit) { symbol = codes "BTCUSDT"; price = 9 }

-- A limit order of a spot client, priced twice.
built_spot-Sends_example :
    let p = build_spot spot_calls (fresh_spot Side.flat OrderType.unknown) in
    (p ≡ priced)
    × Sends env caller priced start
        (order_parameters priced OrderType.limit)
        (send_order (binance_spot env) p caller start)
built_spot-Sends_example =
    built_spot-Sends whole_prints env caller Side.flat OrderType.unknown start spot_calls
      (tt, (omega arith, (tt, (tt, tt))))

abbrev futures_calls : List (FuturesCall ℕ)
futures_calls =
    FuturesCall.price 7
    ∷ FuturesCall.reset
    ∷ FuturesCall.symbol (codes "BTCUSDT")
    ∷ FuturesCall.reduce_only true
    ∷ []

abbrev reducing : FuturesParams ℕ
reducing = record (fresh_futures Side.buy OrderType.market) {
  symbol = codes "BTCUSDT";
  reduce_only = true;
}

-- The price is forgotten by the reset.
built_futures-Receives_example :
    let p = build_futures futures_calls (fresh_futures Side.flat OrderType.unknown) in
    (p ≡ reducing)
    × Receives env start post
        (codes "/api/v3/order")
        (map decoded (futures_parameters reducing))
        (send_order (binance_futures env) p caller start)
built_futures-Receives_example =
    built_futures-Receives whole_prints env caller Side.flat OrderType.unknown start futures_calls
      (tt, (tt, (omega arith, (tt, tt))))
