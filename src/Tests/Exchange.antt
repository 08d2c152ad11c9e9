-- ===== src/Tests/Exchange.antt =====
-- Signed requests at a concrete client.
use crypto_con.Base.{codes, ◌≡◌, some, arith}
use crypto_con.Base.Int.{pos}
use crypto_con.Types.{TokenPair}
use crypto_con.World.{get, post, delete}
use crypto_con.Exec.{dummy}
use crypto_con.Binance.Query.Decode.{read_query}
use crypto_con.Binance.Endpoints.{
  signed_target, get_account_info, get_open_orders, get_open_positions, cancel_order, set_leverage,
}
use crypto_con.Binance.Endpoints.Server.{receive, receive-signed_target}
use crypto_con.Binance.Endpoints.Signed.{
  Receives, now, timed_parameters, cancel_parameters, leverage_parameters, initial_pairs-IsPlain,
  signed_reads_received, cancel_and_leverage_received,
}
use crypto_con.Tests.Fixtures.{env, start, toy_digest}

receive-signed_target_example :
    receive toy_digest
      (codes "s")
      (signed_target toy_digest (codes "s") (codes "/p") (codes "a=1&b=2"))
    ≡ some (codes "/p", read_query (codes "a=1&b=2"))
receive-signed_target_example =
    receive-signed_target toy_digest (codes "s") (codes "/p") (codes "a=1&b=2") (omega arith)

signed_reads_received_example :
    Receives env start get
      (codes "/api/v3/account")
      (timed_parameters (now env start))
      (get_account_info env start)
    × Receives env start get
        (codes "/api/v3/openOrders")
        (timed_parameters (now env start))
        (get_open_orders env start)
    × Receives env start get
        (codes "/api/v3/openOrders")
        (timed_parameters (now env start))
        (get_open_positions env start)
signed_reads_received_example = signed_reads_received env start

cancel_and_leverage_received_example :
    Receives env start delete
      (codes "/api/v3/order")
      (cancel_parameters (codes "BTCUSDT") 1700000000000 17)
      (cancel_order env TokenPair.btcusd 17 dummy start)
    × Receives env start post
        (codes "/fapi/v1/leverage")
        (leverage_parameters (codes "BTCUSDT") (pos 10) 1700000000000)
        (set_leverage env TokenPair.btcusd (pos 10) start)
cancel_and_leverage_received_example =
    cancel_and_leverage_received env start TokenPair.btcusd 17 (pos 10) dummy (omega arith)
      initial_pairs-IsPlain
