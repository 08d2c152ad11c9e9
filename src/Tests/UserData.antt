-- ===== src/Tests/UserData.antt =====
-- The subscription of a client with one connection to the user data feed.
use crypto_con.Base.{codes, [], ◌∷◌, some, ◌≡◌, refl, arith}
use crypto_con.World.{World, Connection, binance_user_data}
use crypto_con.Websocket.{new_connection, start_connection, insert_connection}
use crypto_con.Websocket.Invariant.{IsWellFormed}
use crypto_con.Utils.Number.{decimal}
use crypto_con.Binance.Feeds.{user_data_opened}
use crypto_con.Binance.Feeds.Subscribes.{receive_subscription}
use crypto_con.Clients.Subscription.{made}
use crypto_con.Clients.UserData.{user_data_opened-receive_subscription}
use crypto_con.Tests.Fixtures.{env, start}

abbrev subscriber : Connection
subscriber = new_connection 0 3 (codes "wss://a/b") (binance_user_data 7 5000)

abbrev subscribed : World
subscribed =
    insert_connection env
      (start_connection 3 (codes "a") (codes "/b") (binance_user_data 7 5000) start)

subscribed-IsWellFormed : IsWellFormed subscribed
subscribed-IsWellFormed = record {
  entries = (record { endpoint = refl; socket = refl; given_out = omega arith }, tt);
  keys = (tt, tt);
  ids = (tt, tt);
  pending = tt;
}

user_data_opened-receive_subscription_example :
    let message = made env 7 5000 subscribed in
    ((user_data_opened env 7 5000 (codes "wss://a/b") subscribed).1.ws.outbox ≡ (0, message) ∷ [])
    × (receive_subscription env.digest (codes "secret") message
        ≡ some (
          codes "7",
          (codes "apiKey", codes "key")
              ∷ (codes "recvWindow", codes "5000")
              ∷ (codes "timestamp", codes "1700000000000")
              ∷ [],
        ))
unfolding decimal
user_data_opened-receive_subscription_example =
    user_data_opened-receive_subscription env 7 5000 (codes "wss://a/b") subscribed subscriber refl
      subscribed-IsWellFormed refl refl (omega arith)
