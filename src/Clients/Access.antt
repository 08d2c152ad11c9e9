-- ===== src/Clients/Access.antt =====
-- The rest of src/clients/baseclient.h: the market type of a policy, the accessors, the calls that
-- the client passes on without asking the policy whether it has them, and the end of a client.
use crypto_con.Base.{Bytes, Bool, Option, none, some}
use crypto_con.Types.{MarketType, SpotParams, FuturesParams}
use crypto_con.Utils.Double.{Double}
use crypto_con.World.{World, Env, RestState, WsState}
use crypto_con.Exec.{Exec, pure, modify, ◌>>◌}
use crypto_con.Rest.{close_client}
use crypto_con.Websocket
use crypto_con.Websocket.{destroy_client}
use crypto_con.Binance.Query.{build_query_spot, build_query_futures}

-- `ConfigMarketType<Config>::value`: the argument of `Config`, if it is a template over a market type
abbrev pub config_market_type : Option MarketType → MarketType
config_market_type none = MarketType.generic
config_market_type (some market) = market

-- `apiKey`, `secretKey`, `restClient` and `websocketClient`
abbrev pub api_key : World → Bytes
api_key w = w.api_key

abbrev pub secret_key : World → Bytes
secret_key w = w.secret_key

abbrev pub rest_client : World → RestState
rest_client w = w.rest

abbrev pub websocket_client : World → WsState
websocket_client w = w.ws

module _ (env : Env) where
  -- `buildQuery`, of a spot and of a futures client
  unfoldable pub spot_query : {W : Type 0} ⦃d : Double W⦄ → SpotParams W → Exec Bytes
  spot_query params = build_query_spot params env

  unfoldable pub futures_query : {W : Type 0} ⦃d : Double W⦄ → FuturesParams W → Exec Bytes
  futures_query params = pure (build_query_futures params)

  -- `isConnected`
  unfoldable pub is_connected : Bytes → Exec Bool
  is_connected endpoint = Websocket.is_connected env endpoint

  -- `disconnect`
  unfoldable pub disconnect : Bytes → Exec (Unit {0})
  disconnect endpoint = modify (Websocket.disconnect endpoint)

  -- The end of a client: its members are destroyed in the opposite order of their declaration.
  unfoldable pub destroy : Exec (Unit {0})
  destroy = do close_client env; modify destroy_client
