-- ===== src/Configs/Paths.antt =====
-- The paths that `BinancePolicy` uses, against the configurations.
use crypto_con.Base.{
  Bytes, if◌then◌else◌, ◌==◌, some, none, ◌≡◌, ◌≢◌, refl, differs, subst, some-injective,
}
use crypto_con.Types.{OrderType, order_type_code}
use crypto_con.World.{World, Env, get, post}
use crypto_con.Exec.{ErrorRef}
use crypto_con.Binance.Query.Decode.{read_query}
use crypto_con.Binance.Endpoints.Orders.{sign_and_send-Receives}
use crypto_con.Binance.Endpoints.{sign_and_send, get_account_info, get_open_orders}
use crypto_con.Binance.Endpoints.Signed.{Receives, now, timed_parameters, signed_reads_received}
use crypto_con.Configs.{binance_spot_config, binance_futures_config}

-- Any client of Binance asks for the account and the open orders at the paths of the spot
-- configuration, and posts its orders there, at the path for OCO orders or at the other one. The
-- futures configuration has other paths for the account and the orders, and none for the open orders
-- and OCO orders.
pub policy_uses_spot_paths :
    (env : Env) (w : World) (t : OrderType) (query : Bytes) (error : ErrorRef) (orders oco : Bytes)
    → binance_spot_config.open_orders ≡ some orders
    → binance_spot_config.oco ≡ some oco
    → Receives env w get binance_spot_config.account_info
        (timed_parameters (now env w))
        (get_account_info env w)
      × Receives env w get orders (timed_parameters (now env w)) (get_open_orders env w)
      × Receives env w post
          (if order_type_code t == order_type_code OrderType.oco
            then oco
            else binance_spot_config.order)
          (read_query query)
          (sign_and_send env t query error w)
      × (binance_futures_config.account_info ≢ binance_spot_config.account_info)
      × (binance_futures_config.order ≢ binance_spot_config.order)
      × (binance_futures_config.open_orders ≡ none)
      × (binance_futures_config.oco ≡ none)
policy_uses_spot_paths env w t query error orders oco e f =
    let (account, open_orders, positions) = signed_reads_received env w in
    (
      account,
      subst (λ p. Receives env w get p (timed_parameters (now env w)) (get_open_orders env w))
          (some-injective _ _ e) open_orders,
      subst
          (λ p.
            Receives env w post
              (if order_type_code t == order_type_code OrderType.oco
                then p
                else binance_spot_config.order)
              (read_query query) (sign_and_send env t query error w))
          (some-injective _ _ f) (sign_and_send-Receives env error w t query refl),
      differs _ _ refl,
      differs _ _ refl,
      refl,
      refl,
    )
