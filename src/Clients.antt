-- ===== src/Clients.antt =====
-- src/clients/baseclient.h, asyncclient.h and syncclient.h: the client over a policy. An operation
-- that a policy may lack is an option; `if constexpr (requires …)` asks whether it is there.
pub mod Dispatch
pub mod Handlers
pub mod Subscription
pub mod Blocking
pub mod Messages
pub mod Access
pub mod UserData
pub mod Stops
use crypto_con.Base.{ℕ, Bytes, codes, List, [], ◌∷◌, ◌++◌, Option, none, some}
use crypto_con.Base.Int.{ℤ}
use crypto_con.Types.{TokenPair, Error, no_error, SpotParams, FuturesParams}
use crypto_con.Types.Tables.Binance
use crypto_con.Types.Tables.Kraken as KrakenTables
use crypto_con.Utils.Double.{Double}
use crypto_con.World.{World, Env, OnOpen, no_op, binance_user_data, kraken_trades}
use crypto_con.Exec.{Exec, Outcome, ErrorRef, pure, logger, ◌>>=◌, ◌>>◌}
use crypto_con.Rest.{fresh_rest, open_client}
use crypto_con.Websocket.{fresh_ws, is_connected, disconnect, disconnect_all}
use crypto_con.Binance.Query.{build_query_spot, build_query_futures}
use crypto_con.Binance.Endpoints
use crypto_con.Binance.Feeds
use crypto_con.Kraken

-- The operations of a policy that `BaseClient` may use; `P` is its `OrderParams`.
pub record Policy (P : Type 0) : Type 0 where
  pub rest_host : Bytes
  pub ws_host : Bytes
  pub send_order : Option (P → ErrorRef → Exec Bytes)
  pub get_open_orders : Option (Exec Bytes)
  pub cancel_all_open_orders : Option (Exec (Unit {0}))
  pub get_account_info : Option (Exec Bytes)
  pub get_order_book : Option (TokenPair → ℤ → Exec Bytes)
  pub cancel_order : Option (TokenPair → ℕ → ErrorRef → Exec Bytes)
  pub connect_user_data_feed : Option (ℕ → Bytes → ℕ → ℕ → Exec (Unit {0}))
  pub connect_depth_feed : Option (List TokenPair → ℕ → Exec (Unit {0}))
  pub connect_trade_feed : Option (List TokenPair → ℕ → Exec (Unit {0}))

abbrev pub not_implemented : Bytes → Exec (Unit {0})
not_implemented name = logger (name ++ codes " is not implemented for this client configuration")

abbrev pub or_text : Bytes → Option (Exec Bytes) → Exec Bytes
or_text name none = do not_implemented name; pure []
or_text name (some run) = run

abbrev pub or_unit : Bytes → Option (Exec (Unit {0})) → Exec (Unit {0})
or_unit name none = not_implemented name
or_unit name (some run) = run

abbrev pub on : {A B : Type 0} → Option A → (A → B) → Option B
on none f = none
on (some a) f = some (f a)

module _ {P : Type 0} (policy : Policy P) where
  unfoldable pub send_order : P → ErrorRef → Exec Bytes
  send_order p error = or_text (codes "sendOrder") (on policy.send_order (λ f. f p error))

  unfoldable pub get_open_orders : Exec Bytes
  get_open_orders = or_text (codes "getOpenOrders") policy.get_open_orders

  unfoldable pub cancel_all_open_orders : Exec (Unit {0})
  cancel_all_open_orders = or_unit (codes "cancelAllOpenOrders") policy.cancel_all_open_orders

  unfoldable pub get_account_info : Exec Bytes
  get_account_info = or_text (codes "getAccountInfo") policy.get_account_info

  unfoldable pub get_order_book : TokenPair → ℤ → Exec Bytes
  get_order_book symbol limit =
      or_text (codes "getOrderBook") (on policy.get_order_book (λ f. f symbol limit))

  unfoldable pub cancel_order : TokenPair → ℕ → ErrorRef → Exec Bytes
  cancel_order symbol order_id error =
      or_text (codes "cancelOrder") (on policy.cancel_order (λ f. f symbol order_id error))

  unfoldable pub connect_user_data_feed : ℕ → Bytes → ℕ → ℕ → Exec (Unit {0})
  connect_user_data_feed callback path request_id recv_window =
      or_unit (codes "connectUserDataFeed")
        (on policy.connect_user_data_feed (λ f. f callback path request_id recv_window))

  unfoldable pub connect_depth_feed : List TokenPair → ℕ → Exec (Unit {0})
  connect_depth_feed tokens callback =
      or_unit (codes "connectDepthFeed") (on policy.connect_depth_feed (λ f. f tokens callback))

  unfoldable pub connect_trade_feed : List TokenPair → ℕ → Exec (Unit {0})
  connect_trade_feed tokens callback =
      or_unit (codes "connectTradeFeed") (on policy.connect_trade_feed (λ f. f tokens callback))

-- A client before its REST client has connected.
abbrev pub blank : Bytes → Bytes → Bytes → World
blank host api_key secret_key = record {
  log = [];
  clock_reads = 0;
  dummy_error = no_error;
  caller_error = no_error;
  api_key = api_key;
  secret_key = secret_key;
  binance_pairs = Binance.token_pair_to_string;
  kraken_pairs = KrakenTables.token_pair_to_string;
  rest = fresh_rest host;
  ws = fresh_ws;
}

module _ (env : Env) where
  -- `BinancePolicy`, over its way to send an order, and to read and cancel the open ones if it has
  -- these.
  abbrev pub binance :
      {P : Type 0}
      → (P → ErrorRef → Exec Bytes)
      → Option (Exec Bytes)
      → Option (Exec (Unit {0}))
      → Policy P
  binance send open_orders cancel_all = record {
    rest_host = codes "testnet.binance.vision";
    ws_host = Feeds.stream_host;
    send_order = some send;
    get_open_orders = open_orders;
    cancel_all_open_orders = cancel_all;
    get_account_info = some (Endpoints.get_account_info env);
    get_order_book = some (Endpoints.get_order_book env);
    cancel_order = some (Endpoints.cancel_order env);
    connect_user_data_feed = some (Feeds.connect_user_data_feed env);
    connect_depth_feed = some (Feeds.connect_depth_feed env);
    connect_trade_feed = some (Feeds.connect_trade_feed env);
  }

  -- `BinancePolicy<SPOT>` and `BinancePolicy<FUTURES>`; `getOpenOrders` and `cancelAllOpenOrders` are
  -- for spot only
  abbrev pub binance_spot : {W : Type 0} ⦃d : Double W⦄ → Policy (SpotParams W)
  binance_spot =
      binance (Endpoints.send_order_spot env) (some (Endpoints.get_open_orders env))
        (some (Endpoints.cancel_all_open_orders env))

  abbrev pub binance_futures : {W : Type 0} ⦃d : Double W⦄ → Policy (FuturesParams W)
  binance_futures = binance (Endpoints.send_order_futures env) none none

  -- `KrakenPolicy`, which has the two public feeds
  abbrev pub kraken : {P : Type 0} → Policy P
  kraken = record {
    rest_host = Kraken.rest_host;
    ws_host = Kraken.ws_host;
    send_order = none;
    get_open_orders = none;
    cancel_all_open_orders = none;
    get_account_info = none;
    get_order_book = none;
    cancel_order = none;
    connect_user_data_feed = none;
    connect_depth_feed = some (Kraken.connect_depth_feed env);
    connect_trade_feed = some (Kraken.connect_trade_feed env);
  }

  -- The on-open handlers that the policies give to the WebSocket client.
  unfoldable pub run_open : OnOpen → Bytes → Exec (Unit {0})
  run_open no_op url = pure tt
  run_open (binance_user_data request_id recv_window) url =
      Feeds.user_data_opened env request_id recv_window url
  run_open (kraken_trades message) url = Kraken.trades_opened env message url

  -- The constructor of `BaseClient`, which connects the REST client.
  unfoldable pub construct : {P : Type 0} → Policy P → Bytes → Bytes → Outcome (Unit {0}) × World
  construct policy api_key secret_key = open_client env (blank policy.rest_host api_key secret_key)
