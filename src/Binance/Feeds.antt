-- ===== src/Binance/Feeds.antt =====
-- The WebSocket feeds of `BinancePolicy` in src/policies/binancepolicy.h.
pub mod Paths
pub mod Members
pub mod Subscribes
use crypto_con.Base.{
  ℕ, Bytes, codes, List, [], ◌∷◌, ◌++◌, Bool, true, false, ◌||◌, is_empty, ltb, if◌then◌else◌,
}
use crypto_con.Types.{TokenPair}
use crypto_con.Utils.Number.{decimal}
use crypto_con.Utils.Lower.{to_lower}
use crypto_con.Utils.Signing.{Digest, sign_hmac}
use crypto_con.World.{World, Env, OnOpen, no_op, binance_user_data}
use crypto_con.Exec.{Exec, ok, pure, logger, current_time_millis, gets, ◌>>=◌, ◌>>◌}
use crypto_con.Websocket.{connect_endpoint, send}
use crypto_con.Binance.Endpoints.{binance_symbol}

abbrev pub user_host : Bytes
user_host = codes "ws-api.testnet.binance.vision"

abbrev pub stream_host : Bytes
stream_host = codes "stream.testnet.binance.vision"

-- The text that is signed for a subscription.
abbrev pub signature_payload : Bytes → ℕ → ℕ → Bytes
signature_payload api_key recv_window timestamp =
    codes "apiKey="
    ++ api_key
    ++ (if ltb 0 recv_window then codes "&recvWindow=" ++ decimal recv_window else [])
    ++ codes "&timestamp="
    ++ decimal timestamp

abbrev pub subscribe_message : ℕ → Bytes → ℕ → ℕ → Bytes → Bytes
subscribe_message request_id api_key recv_window timestamp signature =
    codes "{\"id\":"
    ++ decimal request_id
    ++ codes ",\"method\":\"userDataStream.subscribe.signature\",\"params\":{\"apiKey\":\""
    ++ api_key
    ++ codes "\""
    ++ (if ltb 0 recv_window then codes ",\"recvWindow\":" ++ decimal recv_window else [])
    ++ codes ",\"timestamp\":"
    ++ decimal timestamp
    ++ codes ",\"signature\":\""
    ++ signature
    ++ codes "\"}}"

abbrev pub subscription : Digest → ℕ → ℕ → World → ℕ → Bytes
subscription d request_id recv_window w now =
    subscribe_message request_id w.api_key recv_window now
      (sign_hmac d w.secret_key (signature_payload w.api_key recv_window now))

abbrev pub subscribed_line : Bool → Bytes → Bytes
subscribed_line true url = codes "Subscribed (signature) to Binance user data stream on " ++ url
subscribed_line false url =
    codes "Failed to subscribe (signature) to Binance user data stream on " ++ url

abbrev pub no_keys_line : Bytes → Bytes
no_keys_line url =
    codes "Cannot subscribe (signature) to Binance user data stream on "
    ++ url
    ++ codes ": API key/secret key is empty"

module _ (env : Env) where
  abbrev pub subscribe : ℕ → ℕ → Bytes → Exec (Unit {0})
  subscribe request_id recv_window url = do
    now ← current_time_millis env
    message ← gets (λ w. subscription env.digest request_id recv_window w now)
    sent ← send env url message
    logger (subscribed_line sent url)

  -- The on-open handler of `connectUserDataFeed`.
  unfoldable pub user_data_opened : ℕ → ℕ → Bytes → Exec (Unit {0})
  user_data_opened request_id recv_window url w =
      let subscribed = subscribe request_id recv_window url w in
      if is_empty w.api_key || is_empty w.secret_key
      then logger (no_keys_line url) w
      else subscribed

  -- `connectUserDataFeed`
  unfoldable pub connect_user_data_feed : ℕ → Bytes → ℕ → ℕ → Exec (Unit {0})
  connect_user_data_feed callback path request_id recv_window =
      connect_endpoint env callback user_host path (binance_user_data request_id recv_window)

-- "<symbol>@<stream>"
abbrev pub stream_of : Bytes → TokenPair → Exec Bytes
stream_of stream token = do name ← binance_symbol token; pure (to_lower name ++ stream)

-- The streams of the tokens behind `s`, each after the first with a slash before it.
unfoldable pub append_streams : Bytes → Bytes → Bytes → List TokenPair → Exec Bytes
append_streams stream s slash [] = pure s
append_streams stream s slash (token ∷ tokens) = do
  name ← stream_of stream token
  append_streams stream (s ++ slash ++ name) (codes "/") tokens

-- The path of a feed: one stream, or several combined.
unfoldable pub feed_path : Bytes → List TokenPair → Exec Bytes
unfolding append_streams
feed_path stream [] = append_streams stream (codes "/stream?streams=") [] []
feed_path stream (token ∷ []) = do name ← stream_of stream token; pure (codes "/ws/" ++ name)
feed_path stream (token ∷ other ∷ tokens) =
    append_streams stream (codes "/stream?streams=") [] (token ∷ other ∷ tokens)

module _ (env : Env) where
  abbrev pub connect_feed : Bytes → List TokenPair → ℕ → Exec (Unit {0})
  connect_feed stream tokens callback = do
    path ← feed_path stream tokens
    connect_endpoint env callback stream_host path no_op

  -- `connectDepthFeed`
  unfoldable pub connect_depth_feed : List TokenPair → ℕ → Exec (Unit {0})
  connect_depth_feed = connect_feed (codes "@depth")

  -- `connectTradeFeed`
  unfoldable pub connect_trade_feed : List TokenPair → ℕ → Exec (Unit {0})
  connect_trade_feed = connect_feed (codes "@aggTrade")
