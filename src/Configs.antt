-- ===== src/Configs.antt =====
-- src/configs.h: the hosts and paths of the exchanges.
pub mod Paths
use crypto_con.Base.{Bytes, codes, Bool, true, false, Option, none, some}
use crypto_con.Types.{ProtocolType}

-- The members of the configurations; a member that only some have is an option.
pub record Config : Type 0 where
  pub url : Bytes
  pub test_url : Bytes
  pub account_info : Bytes
  pub ping : Bytes
  pub server_time : Bytes
  pub exchange_info : Bytes
  pub depth : Bytes
  pub trades : Bytes
  pub order : Bytes
  pub open_orders : Option Bytes
  pub closed_orders : Option Bytes
  pub open_positions : Option Bytes
  pub query_order : Option Bytes
  pub cancel_order : Option Bytes
  pub oco : Option Bytes
  pub listen_key : Option Bytes
  pub leverage : Option Bytes
  pub ws_url : Option Bytes
  pub default_protocol : ProtocolType
  pub supports_quote_order_qty : Bool

-- `BinanceConfig<MarketType::SPOT>`
abbrev pub binance_spot_config : Config
binance_spot_config = record {
  url = codes "api.binance.com";
  test_url = codes "testnet.binance.vision";
  account_info = codes "/api/v3/account";
  ping = codes "/api/v3/ping";
  server_time = codes "/api/v3/time";
  exchange_info = codes "/api/v3/exchangeInfo";
  depth = codes "/api/v3/depth";
  trades = codes "/api/v3/trades";
  order = codes "/api/v3/order";
  open_orders = some (codes "/api/v3/openOrders");
  closed_orders = none;
  open_positions = none;
  query_order = none;
  cancel_order = none;
  oco = some (codes "/api/v3/order/oco");
  listen_key = some (codes "/api/v3/userDataStream");
  leverage = none;
  ws_url = none;
  default_protocol = ProtocolType.json;
  supports_quote_order_qty = true;
}

-- `BinanceConfig<MarketType::FUTURES>`
abbrev pub binance_futures_config : Config
binance_futures_config = record {
  url = codes "fapi.binance.com";
  test_url = codes "demo-fapi.binance.com";
  account_info = codes "/fapi/v2/balance";
  ping = codes "/fapi/v1/ping";
  server_time = codes "/fapi/v1/time";
  exchange_info = codes "/fapi/v1/exchangeInfo";
  depth = codes "/fapi/v1/depth";
  trades = codes "/fapi/v1/trades";
  order = codes "/fapi/v1/order";
  open_orders = none;
  closed_orders = none;
  open_positions = some (codes "/fapi/v3/positionRisk");
  query_order = none;
  cancel_order = none;
  oco = none;
  listen_key = some (codes "/fapi/v1/listenKey");
  leverage = some (codes "/fapi/v1/leverage");
  ws_url = none;
  default_protocol = ProtocolType.json;
  supports_quote_order_qty = false;
}

-- `KrakenConfig<MarketType::SPOT>`
abbrev pub kraken_spot_config : Config
kraken_spot_config = record {
  url = codes "api.kraken.com";
  test_url = codes "api.demo.kraken.com";
  account_info = codes "/0/private/Balance";
  ping = codes "/0/public/SystemStatus";
  server_time = codes "/0/public/Time";
  exchange_info = codes "/0/public/AssetPairs";
  depth = codes "/0/public/Depth";
  trades = codes "/0/public/Trades";
  order = codes "/0/private/AddOrder";
  open_orders = some (codes "/0/private/OpenOrders");
  closed_orders = some (codes "/0/private/ClosedOrders");
  open_positions = none;
  query_order = some (codes "/0/private/QueryOrders");
  cancel_order = some (codes "/0/private/CancelOrder");
  oco = none;
  listen_key = some (codes "/0/private/GetWebSocketsToken");
  leverage = none;
  ws_url = none;
  default_protocol = ProtocolType.json;
  supports_quote_order_qty = true;
}

-- `KrakenConfig<MarketType::FUTURES>`
abbrev pub kraken_futures_config : Config
kraken_futures_config = record {
  url = codes "futures.kraken.com";
  test_url = codes "demo-futures.kraken.com";
  account_info = codes "/derivatives/api/v3/accounts";
  ping = codes "/derivatives/api/v3/platform/status";
  server_time = codes "/derivatives/api/v3/time";
  exchange_info = codes "/derivatives/api/v3/instruments";
  depth = codes "/derivatives/api/v3/orderbook";
  trades = codes "/derivatives/api/v3/history";
  order = codes "/derivatives/api/v3/sendorder";
  open_orders = some (codes "/derivatives/api/v3/openorders");
  closed_orders = none;
  open_positions = some (codes "/derivatives/api/v3/openpositions");
  query_order = none;
  cancel_order = some (codes "/derivatives/api/v3/cancelorder");
  oco = none;
  listen_key = none;
  leverage = some (codes "/derivatives/api/v3/leveragepreferences");
  ws_url = none;
  default_protocol = ProtocolType.json;
  supports_quote_order_qty = false;
}

-- `CoinbaseConfig<MarketType::GENERIC>`
abbrev pub coinbase_generic_config : Config
coinbase_generic_config = record {
  url = codes "api.coinbase.com";
  test_url = codes "api-public.sandbox.pro.coinbase.com";
  account_info = codes "/api/v3/brokerage/accounts";
  ping = codes "/api/v3/brokerage/time";
  server_time = codes "/api/v3/brokerage/time";
  exchange_info = codes "/api/v3/brokerage/products";
  depth = codes "/api/v3/brokerage/product_book";
  trades = codes "/api/v3/brokerage/products/trades";
  order = codes "/api/v3/brokerage/orders";
  open_orders = some (codes "/api/v3/brokerage/orders/historical/batch");
  closed_orders = none;
  open_positions = none;
  query_order = none;
  cancel_order = some (codes "/api/v3/brokerage/orders/batch_cancel");
  oco = none;
  listen_key = none;
  leverage = none;
  ws_url = some (codes "wss://advanced-trade-ws.coinbase.com");
  default_protocol = ProtocolType.json;
  supports_quote_order_qty = true;
}
