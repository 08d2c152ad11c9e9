-- ===== src/System.antt =====
-- A whole client: the calls of src/clients/baseclient.h and src/policies/binancepolicy.h on it, and
-- the steps of its WebSocket client, in any order.
pub mod Authentic
pub mod Grows
pub mod Calls
pub mod Quiet
pub mod Symbols
pub mod Feeds
pub mod Perform
pub mod Safety
pub mod Trades
pub mod Placed
use crypto_con.Base.{ℕ, Bytes, List}
use crypto_con.Base.Int.{ℤ}
use crypto_con.Types.{TokenPair, SpotParams, FuturesParams}
use crypto_con.Utils.Double.{Double}
use crypto_con.World.{World, Env}
use crypto_con.Exec.{ErrorRef}
use crypto_con.Binance.Endpoints
use crypto_con.Clients
use crypto_con.Clients.{binance_spot, binance_futures, kraken, run_open}
use crypto_con.Websocket.Steps.{Step}

-- The calls that a program can make, with their arguments; those of a spot client and those of a
-- futures client, through `BaseClient` where it has them.
pub data Call (W : Type 0) : Type 0 where
  send_spot : SpotParams W → ErrorRef → Call W
  send_futures : FuturesParams W → ErrorRef → Call W
  open_orders account_info cancel_all : Call W
  order_book : TokenPair → ℤ → Call W
  cancel : TokenPair → ℕ → ErrorRef → Call W
  open_positions ping server_time exchange_info : Call W
  recent_trades : TokenPair → ℤ → Call W
  leverage : TokenPair → ℤ → Call W
  keep_alive : Bytes → Call W
  close_listen : Bytes → Call W

module _ {W : Type 0} ⦃d : Double W⦄ (env : Env) where
  -- The state after a call, whether it has returned or thrown.
  pub perform : Call W → World → World
  perform (Call.send_spot p error) w = (Clients.send_order (binance_spot env) p error w).1
  perform (Call.send_futures p error) w = (Clients.send_order (binance_futures env) p error w).1
  perform Call.open_orders w = (Clients.get_open_orders (binance_spot env ⦃d = d⦄) w).1
  perform Call.account_info w = (Clients.get_account_info (binance_spot env ⦃d = d⦄) w).1
  perform Call.cancel_all w = (Clients.cancel_all_open_orders (binance_spot env ⦃d = d⦄) w).1
  perform (Call.order_book p limit) w =
      (Clients.get_order_book (binance_spot env ⦃d = d⦄) p limit w).1
  perform (Call.cancel p order_id error) w =
      (Clients.cancel_order (binance_spot env ⦃d = d⦄) p order_id error w).1
  perform Call.open_positions w = (Endpoints.get_open_positions env w).1
  perform Call.ping w = (Endpoints.ping env w).1
  perform Call.server_time w = (Endpoints.get_server_time env w).1
  perform Call.exchange_info w = (Endpoints.get_exchange_info env w).1
  perform (Call.recent_trades p limit) w = (Endpoints.get_recent_trades env p limit w).1
  perform (Call.leverage p x) w = (Endpoints.set_leverage env p x w).1
  perform (Call.keep_alive listen_key) w = (Endpoints.keep_alive_listen_key env listen_key w).1
  perform (Call.close_listen listen_key) w = (Endpoints.close_listen_key env listen_key w).1

-- The feeds of a client, of Binance and of Kraken.
pub data Feed : Type 0 where
  user_data : ℕ → Bytes → ℕ → ℕ → Feed
  depth trades : List TokenPair → ℕ → Feed
  kraken_depth kraken_trade : List TokenPair → ℕ → Feed

module _ (W : Type 0) ⦃d : Double W⦄ (env : Env) where
  -- The state after the call that opens a feed.
  pub open_feed : Feed → World → World
  open_feed (Feed.user_data callback path request_id recv_window) w =
      (Clients.connect_user_data_feed (binance_spot env ⦃d = d⦄) callback path request_id
        recv_window w).1
  open_feed (Feed.depth tokens callback) w =
      (Clients.connect_depth_feed (binance_spot env ⦃d = d⦄) tokens callback w).1
  open_feed (Feed.trades tokens callback) w =
      (Clients.connect_trade_feed (binance_spot env ⦃d = d⦄) tokens callback w).1
  open_feed (Feed.kraken_depth tokens callback) w =
      (Clients.connect_depth_feed (kraken env {P = SpotParams W}) tokens callback w).1
  open_feed (Feed.kraken_trade tokens callback) w =
      (Clients.connect_trade_feed (kraken env {P = SpotParams W}) tokens callback w).1

  -- A call, a feed, or a step of the WebSocket client and its sockets.
  pub data SystemStep : World → World → Type 0 where
    call : {w : World} (c : Call W) → SystemStep w (perform env c w)
    feed : {w : World} (f : Feed) → SystemStep w (open_feed f w)
    socket : {w w' : World} → Step env (run_open env) w w' → SystemStep w w'

  pub data Runs : World → World → Type 0 where
    start : {w : World} → Runs w w
    next : {w v v' : World} → Runs w v → SystemStep v v' → Runs w v'
