-- ===== src/Binance/Templates.antt =====
-- The operations of `BinancePolicy` in src/policies/binancepolicy.h that name a function that the
-- repository does not have: `host.post` in `createListenKey` and `sign` in `setMarginType`. They are
-- parameters here. Also the overload of `sendOrder` that reports no error.
pub mod ListenKey
use crypto_con.Base.{ℕ, Bytes, codes, List, [], ◌++◌, ◌⊎◌, inl, inr}
use crypto_con.Types.{TokenPair, SpotParams, FuturesParams}
use crypto_con.Utils.Double.{Double}
use crypto_con.Utils.Number.{decimal}
use crypto_con.World.{World, Env}
use crypto_con.Exec.{
  Exec, simdjson_error, pure, raise, gets, logger, dummy, current_time_millis, ◌>>=◌, ◌>>◌,
}
use crypto_con.Rest.{Headers, http_post}
use crypto_con.Rest.Defaults.{post_with}
use crypto_con.Binance.Query.{build_query_spot, build_query_futures}
use crypto_con.Binance.Endpoints.{api_key_header, binance_symbol, sign_and_send}

-- `doc["listenKey"].get_string().value()`, and what catches its exception
abbrev pub listen_key_of : Bytes → ℕ ⊎ Bytes → Exec Bytes
listen_key_of response (inr listen_key) = pure listen_key
listen_key_of response (inl code) = do
  logger (codes "Failed to fetch listen key")
  logger (codes "Full response: " ++ response)
  raise (simdjson_error code)

abbrev pub margin_query : Bytes → Bytes → ℕ → Bytes
margin_query symbol margin_type now =
    codes "symbol="
    ++ symbol
    ++ codes "&marginType="
    ++ margin_type
    ++ codes "&timestamp="
    ++ decimal now
    ++ codes "&recvWindow=5000"

module _ (env : Env) where
  -- `createListenKey`, over the host's `post`
  unfoldable pub create_listen_key : (Bytes → Headers → Exec Bytes) → Exec Bytes
  create_listen_key host_post = do
    headers ← gets api_key_header
    response ← host_post (codes "/api/v3/userDataStream") headers
    listen_key_of response (env.json.string_field response (codes "listenKey"))

  -- `setMarginType`, over `sign`
  unfoldable pub set_margin_type : (Bytes → Bytes → Bytes) → TokenPair → Bytes → Exec Bytes
  set_margin_type sign symbol margin_type = do
    name ← binance_symbol symbol
    now ← current_time_millis env
    secret ← gets (λ w. w.secret_key)
    headers ← gets api_key_header
    post_with env
        (codes "/fapi/v1/marginType?"
          ++ margin_query name margin_type now
          ++ codes "&signature="
          ++ sign secret (margin_query name margin_type now))
        headers

  -- `sendOrder(host, params)`
  unfoldable pub send_spot : {W : Type 0} ⦃d : Double W⦄ → SpotParams W → Exec Bytes
  send_spot p = do query ← build_query_spot p env; sign_and_send env p.type query dummy

  unfoldable pub send_futures : {W : Type 0} ⦃d : Double W⦄ → FuturesParams W → Exec Bytes
  send_futures p = sign_and_send env p.type (build_query_futures p) dummy
