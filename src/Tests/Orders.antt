-- ===== src/Tests/Orders.antt =====
-- Orders and their cancellation at a concrete client.
use crypto_con.Base.{Bytes, codes, map, ◌≡◌, refl, arith}
use crypto_con.Types.{OrderType}
use crypto_con.World.{World, post}
use crypto_con.Exec.{ok, caller}
use crypto_con.Tests.Fixtures.{connects}
use crypto_con.Binance.Query.Spec.{order_parameters, futures_parameters}
use crypto_con.Binance.Query.Decode.{decoded}
use crypto_con.Binance.Endpoints.{
  send_order_spot, send_order_futures, get_open_orders, cancel_all_open_orders,
}
use crypto_con.Binance.Endpoints.Signed.{Receives}
use crypto_con.Binance.Endpoints.Orders.{Sends, send_order_spot-Sends, send_order_futures-Receives}
use crypto_con.Binance.Endpoints.CancelAll.{Swept, cancel_all_open_orders-Swept}
use crypto_con.Tests.Fixtures.{whole, whole_prints, env, start, market_order, futures_order}

send_order_spot-Sends_example :
    Sends env caller market_order start
      (order_parameters market_order OrderType.market)
      (send_order_spot env market_order caller start)
send_order_spot-Sends_example =
    send_order_spot-Sends env caller market_order start whole_prints (omega arith) (omega arith)
      (omega arith)

send_order_futures-Receives_example :
    Receives env start post
      (codes "/api/v3/order")
      (map decoded (futures_parameters futures_order))
      (send_order_futures env futures_order caller start)
send_order_futures-Receives_example =
    send_order_futures-Receives env caller futures_order start whole_prints (omega arith)
      (omega arith)

cancel_all_open_orders-Swept_example :
    (body : Bytes) × (opened : World) × (get_open_orders env start ≡ (ok body, opened))
    × Swept env (env.json.array body) opened (cancel_all_open_orders env start)
cancel_all_open_orders-Swept_example =
    cancel_all_open_orders-Swept env connects start (record { btc = refl; eth = refl })
      (λ text. omega arith)
