-- ===== src/Tests/Tables.antt =====
-- The maps and configurations at concrete keys.
use crypto_con.Base.{codes, ◌≡◌, refl, some, none, ◌≢◌}
use crypto_con.Types.{OrderType, TokenPair}
use crypto_con.Types.StdMap.{
  find, index, token_pair_key, side_key, time_in_force_key, order_type_key,
}
use crypto_con.Types.Tables.Binance
use crypto_con.Types.TableLaws.{find-index}
use crypto_con.Binance.Endpoints.{sign_and_send, get_account_info, get_open_orders}
use crypto_con.Binance.Endpoints.Signed.{Receives, now, timed_parameters}
use crypto_con.World.{get, post}
use crypto_con.Exec.{dummy}
use crypto_con.Binance.Query.Decode.{read_query}
use crypto_con.Configs.{binance_spot_config, binance_futures_config}
use crypto_con.Configs.Paths.{policy_uses_spot_paths}
use crypto_con.Tests.Fixtures.{env, start}

find-index_example :
    find TokenPair.none (index TokenPair.none Binance.token_pair_to_string).1 ≡ some (codes "")
find-index_example = find-index TokenPair.none TokenPair.none Binance.token_pair_to_string

policy_uses_spot_paths_example :
    Receives env start get
      (codes "/api/v3/account")
      (timed_parameters (now env start))
      (get_account_info env start)
    × Receives env start get
        (codes "/api/v3/openOrders")
        (timed_parameters (now env start))
        (get_open_orders env start)
    × Receives env start post
        (codes "/api/v3/order/oco")
        (read_query (codes "symbol=BTCUSDT"))
        (sign_and_send env OrderType.oco (codes "symbol=BTCUSDT") dummy start)
    × (binance_futures_config.account_info ≢ binance_spot_config.account_info)
    × (binance_futures_config.order ≢ binance_spot_config.order)
    × (binance_futures_config.open_orders ≡ none)
    × (binance_futures_config.oco ≡ none)
policy_uses_spot_paths_example =
    policy_uses_spot_paths env start OrderType.oco (codes "symbol=BTCUSDT") dummy
      (codes "/api/v3/openOrders") (codes "/api/v3/order/oco") refl refl
