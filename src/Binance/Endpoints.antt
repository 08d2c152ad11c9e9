-- ===== src/Binance/Endpoints.antt =====
-- The REST operations of `BinancePolicy` in src/policies/binancepolicy.h.
pub mod Server
pub mod Signed
pub mod Orders
pub mod CancelOne
pub mod CancelAll
use crypto_con.Base.{
  ℕ, Bytes, codes, List, [], ◌∷◌, ◌++◌, Option, none, some, ◌⊎◌, inl, inr, ◌==◌, if◌then◌else◌,
}
use crypto_con.Base.Int.{ℤ}
use crypto_con.Types.{TokenPair, OrderType, SpotParams, FuturesParams, order_type_code}
use crypto_con.Types.StdMap.{find, index, token_pair_key, text_key}
use crypto_con.Types.Tables.Binance
use crypto_con.Utils.Double.{Double}
use crypto_con.Utils.Number.{decimal, signed_decimal, append_number}
use crypto_con.Utils.Signing.{Digest, sign_hmac}
use crypto_con.World.{World, Env, OrderView}
use crypto_con.Exec.{
  Exec, Exn, Outcome, ok, throw, simdjson_error, undefined, pure, raise, gets, logger, ErrorRef,
  dummy, current_time_millis, continue, ◌>>=◌, ◌>>◌,
}
use crypto_con.Rest.{Headers, http_get, http_post, http_put, http_delete}
use crypto_con.Rest.Defaults.{get_plain, get_with, post_with, put_with, delete_with}
use crypto_con.Binance.Query.{build_query_spot, build_query_futures}

-- The header that every authenticated request carries.
abbrev pub api_key_header : World → Headers
api_key_header w = (codes "X-MBX-APIKEY", w.api_key) ∷ []

-- endpoint?query&signature=…
abbrev pub signed_target : Digest → Bytes → Bytes → Bytes → Bytes
signed_target d secret endpoint query =
    endpoint ++ codes "?" ++ query ++ codes "&signature=" ++ sign_hmac d secret query

-- `Binance::tokenPairToString[symbol]`, which inserts an empty symbol for a pair that has none
unfoldable pub binance_symbol : TokenPair → Exec Bytes
binance_symbol p w =
    let (symbol, pairs) = index p w.binance_pairs in (ok symbol, record w { binance_pairs = pairs })

-- "timestamp=…&recvWindow=5000"
abbrev pub timed_query : ℕ → Bytes
timed_query now = codes "timestamp=" ++ decimal now ++ codes "&recvWindow=5000"

abbrev pub listen_key_target : Bytes → Bytes
listen_key_target listen_key = codes "/api/v3/userDataStream?listenKey=" ++ listen_key

abbrev pub order_endpoint : OrderType → Bytes
order_endpoint t =
    if order_type_code t == order_type_code OrderType.oco
    then codes "/api/v3/order/oco"
    else codes "/api/v3/order"

abbrev pub cancel_query : Bytes → ℕ → ℕ → Bytes
cancel_query symbol now order_id =
    append_number
      (codes "symbol=" ++ symbol ++ codes "&timestamp=" ++ decimal now ++ codes "&orderId=")
      order_id

abbrev pub leverage_query : Bytes → ℤ → ℕ → Bytes
leverage_query symbol leverage now =
    codes "symbol="
    ++ symbol
    ++ codes "&leverage="
    ++ signed_decimal leverage
    ++ codes "&timestamp="
    ++ decimal now
    ++ codes "&recvWindow=5000"

-- `.value()` of a simdjson result
abbrev pub json_value : {A : Type 0} → ℕ ⊎ A → Exec A
json_value (inl code) = raise (simdjson_error code)
json_value (inr a) = pure a

-- `it->second`
abbrev pub dereference : Option TokenPair → Exec TokenPair
dereference none = raise undefined
dereference (some p) = pure p

-- `catch(const simdjson::simdjson_error&)`, which logs and throws the exception again
abbrev pub rethrow : Bytes → Outcome (Unit {0}) × World → Outcome (Unit {0}) × World
rethrow message (throw (simdjson_error code), w) = (logger message >> raise (simdjson_error code)) w
rethrow message (r, w) = (r, w)

module _ (env : Env) where
  -- A signed GET of an endpoint, with the time as its only parameter.
  abbrev pub get_signed : Bytes → Exec Bytes
  get_signed endpoint = do
    now ← current_time_millis env
    secret ← gets (λ w. w.secret_key)
    headers ← gets api_key_header
    get_with env (signed_target env.digest secret endpoint (timed_query now)) headers

  unfoldable pub keep_alive_listen_key : Bytes → Exec Bytes
  keep_alive_listen_key listen_key = do
    headers ← gets api_key_header
    put_with env (listen_key_target listen_key) headers

  unfoldable pub close_listen_key : Bytes → Exec Bytes
  close_listen_key listen_key = do
    headers ← gets api_key_header
    delete_with env (listen_key_target listen_key) headers

  unfoldable pub get_account_info : Exec Bytes
  get_account_info = get_signed (codes "/api/v3/account")

  unfoldable pub get_open_positions : Exec Bytes
  get_open_positions = get_signed (codes "/api/v3/openOrders")

  unfoldable pub get_open_orders : Exec Bytes
  get_open_orders = get_signed (codes "/api/v3/openOrders")

  unfoldable pub ping : Exec Bytes
  ping = get_plain env (codes "/api/v3/ping")

  unfoldable pub get_server_time : Exec Bytes
  get_server_time = get_plain env (codes "/api/v3/time")

  unfoldable pub get_exchange_info : Exec Bytes
  get_exchange_info = get_plain env (codes "/api/v3/exchangeInfo")

  -- A public GET for a symbol, with a limit.
  abbrev pub get_market : Bytes → TokenPair → ℤ → Exec Bytes
  get_market endpoint symbol limit = do
    name ← binance_symbol symbol
    get_plain env (endpoint ++ codes "?symbol=" ++ name ++ codes "&limit=" ++ signed_decimal limit)

  unfoldable pub get_order_book : TokenPair → ℤ → Exec Bytes
  get_order_book = get_market (codes "/api/v3/depth")

  unfoldable pub get_recent_trades : TokenPair → ℤ → Exec Bytes
  get_recent_trades = get_market (codes "/api/v3/trades")

  -- `sendOrder(host, target, error)`
  unfoldable pub send_target : Bytes → ErrorRef → Exec Bytes
  send_target target error = do headers ← gets api_key_header; http_post env target headers [] error

  abbrev pub sign_and_send : OrderType → Bytes → ErrorRef → Exec Bytes
  sign_and_send type query error = do
    secret ← gets (λ w. w.secret_key)
    send_target (signed_target env.digest secret (order_endpoint type) query) error

  -- `sendOrder(host, params, error)` for a spot and for a futures client
  unfoldable pub send_order_spot :
      {W : Type 0} ⦃d : Double W⦄ → SpotParams W → ErrorRef → Exec Bytes
  send_order_spot p error = do query ← build_query_spot p env; sign_and_send p.type query error

  unfoldable pub send_order_futures :
      {W : Type 0} ⦃d : Double W⦄ → FuturesParams W → ErrorRef → Exec Bytes
  send_order_futures p error = sign_and_send p.type (build_query_futures p) error

  unfoldable pub cancel_order : TokenPair → ℕ → ErrorRef → Exec Bytes
  cancel_order symbol order_id error = do
    name ← binance_symbol symbol
    now ← current_time_millis env
    secret ← gets (λ w. w.secret_key)
    headers ← gets api_key_header
    http_delete env
        (signed_target env.digest secret (codes "/api/v3/order") (cancel_query name now order_id))
        headers error

  unfoldable pub set_leverage : TokenPair → ℤ → Exec Bytes
  set_leverage symbol leverage = do
    name ← binance_symbol symbol
    now ← current_time_millis env
    secret ← gets (λ w. w.secret_key)
    headers ← gets api_key_header
    post_with env
        (signed_target env.digest secret (codes "/fapi/v1/leverage")
          (leverage_query name leverage now))
        headers

  abbrev pub cancel_one : OrderView → Exec Bytes
  cancel_one order = do
    name ← json_value order.symbol
    symbol ← dereference (find name Binance.string_to_token_pair)
    order_id ← json_value order.order_id
    cancel_order symbol order_id dummy

  -- `for (auto order : orders)`
  unfoldable pub cancel_each : List OrderView → Exec (Unit {0})
  cancel_each [] = pure tt
  cancel_each (order ∷ orders) = do cancel_one order; cancel_each orders

  unfoldable pub cancel_all_open_orders : Exec (Unit {0})
  unfolding cancel_each
  cancel_all_open_orders = do
    open_orders ← get_open_orders
    λ w.
        rethrow (codes "Failed to cancel orders")
          ((json_value (env.json.array open_orders) >>= cancel_each) w)
