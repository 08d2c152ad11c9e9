-- ===== src/Clients/UserData.antt =====
-- What the exchange makes of the message that the on-open handler of the user data feed in
-- src/policies/binancepolicy.h sends.
use crypto_con.Base.{ℕ, ◌%◌, ◌^◌, Bytes, [], ◌∷◌, ◌++◌, some, ◌≡◌, true, Lacks}
use crypto_con.Types.StdMap.{find, text_key}
use crypto_con.Utils.Number.{decimal}
use crypto_con.World.{World, Env, Connection}
use crypto_con.Websocket.Invariant.{IsWellFormed}
use crypto_con.Websocket.Operations.{find-IsEntry}
use crypto_con.Binance.Feeds.{user_data_opened}
use crypto_con.Binance.Feeds.Subscribes.{
  receive_subscription, signed_parameters, receive_subscription-subscribe_message,
}
use crypto_con.Clients.Subscription.{HasKeys, made, user_data-sent}

-- When the socket of the user data feed opens, and its URL is in the map, the handler sends one
-- message on that socket; the exchange accepts its signature and finds the id of the request, the
-- API key, the window if it is positive, and the time of the handler, in this order. The client has
-- its keys and is well-formed, the socket takes the message, and the API key holds no quotation mark.
pub user_data_opened-receive_subscription :
    (env : Env) (request_id recv_window : ℕ) (url : Bytes) (w : World) (c : Connection)
    → HasKeys w
    → IsWellFormed w
    → find url w.ws.connections ≡ some c
    → env.sockets.send w.ws.sends ≡ true
    → Lacks b'"' w.api_key
    → let message = made env request_id recv_window w in
      ((user_data_opened env request_id recv_window url w).1.ws.outbox
        ≡ w.ws.outbox ++ (c.id, message) ∷ [])
      × (receive_subscription env.digest w.secret_key message
          ≡ some (
            decimal request_id,
            signed_parameters w.api_key recv_window (env.clock w.clock_reads % 2 ^ 64),
          ))
user_data_opened-receive_subscription env request_id recv_window url w c keys h found taken plain =
    (
      user_data-sent env request_id recv_window url w keys c _ found
          (find-IsEntry w url c h found).socket taken,
      receive_subscription-subscribe_message env.digest w.secret_key request_id w.api_key
          recv_window (env.clock w.clock_reads % 2 ^ 64) plain,
    )
