-- ===== src/System/Placed/Requests.antt =====
-- How many orders each request of a client places.
use crypto_con.Base.{ℕ, ◌+◌, ◌%◌, ◌^◌, Bytes, codes, [], ◌≡◌, refl, subst, arith, Lacks}
use crypto_con.Base.Int.{ℤ}
use crypto_con.Types.{TokenPair}
use crypto_con.Types.StdMap.{index, text_key, token_pair_key}
use crypto_con.World.{World, Env, post}
use crypto_con.Exec.{ErrorRef, dummy}
use crypto_con.Rest.{exchange, http_get, http_post, http_put, http_delete, request_string, Headers}
use crypto_con.Binance.Endpoints
use crypto_con.Binance.Endpoints.{
  api_key_header, signed_target, order_endpoint, binance_symbol, leverage_query, send_target,
  cancel_one, cancel_each, cancel_order, cancel_all_open_orders, json_value, dereference, rethrow,
  send_order_spot, send_order_futures, sign_and_send, get_open_orders, get_market, get_signed,
  set_leverage,
}
use crypto_con.System.Authentic.{path_of-signed_target}
use crypto_con.System.Placed.{is_order_path, one_if, Adds, Places, exchange-Adds}

module _ (env : Env) where
  -- Only a POST can be an order.
  pub get-Places :
      (target : Bytes) (headers : Headers) (error : ErrorRef)
      → Places 0 (http_get env target headers error)
  unfolding http_get
  get-Places target headers error = record { at = λ w. exchange-Adds env _ error w w refl }

  put-Places :
      (target : Bytes) (headers : Headers) (body : Bytes) (error : ErrorRef)
      → Places 0 (http_put env target headers body error)
  unfolding http_put
  put-Places target headers body error = record { at = λ w. exchange-Adds env _ error w w refl }

  delete-Places :
      (target : Bytes) (headers : Headers) (error : ErrorRef)
      → Places 0 (http_delete env target headers error)
  unfolding http_delete
  delete-Places target headers error = record { at = λ w. exchange-Adds env _ error w w refl }

  pub get_signed-Places : (endpoint : Bytes) → Places 0 (get_signed env endpoint)
  get_signed-Places endpoint = record {
    at = λ w. (get-Places _ _ dummy).at (record w { clock_reads = w.clock_reads + 1 });
  }

  pub market-Places :
      (endpoint : Bytes) (p : TokenPair) (limit : ℤ) → Places 0 (get_market env endpoint p limit)
  unfolding binance_symbol
  market-Places endpoint p limit = record {
    at = λ w. (get-Places _ _ dummy).at (record w { binance_pairs = (index p w.binance_pairs).1 });
  }

  pub keep_alive-Places :
      (listen_key : Bytes) → Places 0 (Endpoints.keep_alive_listen_key env listen_key)
  unfolding Endpoints.keep_alive_listen_key
  keep_alive-Places listen_key = record { at = λ w. (put-Places _ _ [] dummy).at w }

  pub close_listen-Places :
      (listen_key : Bytes) → Places 0 (Endpoints.close_listen_key env listen_key)
  unfolding Endpoints.close_listen_key
  close_listen-Places listen_key = record { at = λ w. (delete-Places _ _ dummy).at w }

  pub cancel-Places :
      (p : TokenPair) (order_id : ℕ) (error : ErrorRef)
      → Places 0 (cancel_order env p order_id error)
  unfolding cancel_order binance_symbol
  cancel-Places p order_id error = record {
    at = λ w.
        (delete-Places _ _ error).at (record w {
          clock_reads = w.clock_reads + 1;
          binance_pairs = (index p w.binance_pairs).1;
        });
  }

  -- A signed POST is an order or not by its endpoint.
  pub post-Adds :
      (endpoint query : Bytes) (error : ErrorRef) (w v : World)
      → Lacks b'?' endpoint
      → v.rest.requests ≡ w.rest.requests
      → Adds
          (one_if (is_order_path endpoint))
          w
          (exchange env
            (request_string post
              (signed_target env.digest w.secret_key endpoint query)
              (api_key_header w)
              []
              v)
            error
            v).1
  post-Adds endpoint query error w v bare same =
      let req =
        request_string post (signed_target env.digest w.secret_key endpoint query)
          (api_key_header w) [] v in
      subst (λ path. Adds (one_if (is_order_path path)) w (exchange env req error v).1)
        (path_of-signed_target env.digest w.secret_key endpoint query bare)
        (exchange-Adds env req error w v same)

  pub leverage-Places : (p : TokenPair) (x : ℤ) → Places 0 (set_leverage env p x)
  unfolding set_leverage binance_symbol http_post
  leverage-Places p x = record {
    at = λ w.
        post-Adds (codes "/fapi/v1/leverage")
          (leverage_query (index p w.binance_pairs).0 x (env.clock w.clock_reads % 2 ^ 64)) dummy w
          (record w {
            log = _;
            clock_reads = w.clock_reads + 1;
            binance_pairs = (index p w.binance_pairs).1;
          })
          (omega arith) refl;
  }
