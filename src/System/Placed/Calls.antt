-- ===== src/System/Placed/Calls.antt =====
-- How many orders each call of a client places.
use crypto_con.Base.{
  ℕ, Bytes, codes, Bool, true, false, Bool-cases, List, [], ◌∷◌, Option, none, some, ◌⊎◌, inl, inr,
  ◌≡◌, refl, ap, subst, arith, Lacks, ◌==◌,
}
use crypto_con.Types.{TokenPair, OrderType, order_type_code, SpotParams, FuturesParams}
use crypto_con.Types.StdMap.{find, text_key, token_pair_key}
use crypto_con.Types.Tables.Binance
use crypto_con.Utils.Double.{Double}
use crypto_con.World.{World, Env, OrderView}
use crypto_con.Exec.{
  Outcome, ok, throw, logic_error, simdjson_error, system_error, undefined, foreign, ErrorRef,
  dummy, continue,
}
use crypto_con.Rest.{http_post}
use crypto_con.Binance.Query.{build_query_spot, build_query_futures}
use crypto_con.Binance.Query.Implemented.{is_implemented, Answers, build_query_spot-Answers}
use crypto_con.Binance.Endpoints
use crypto_con.Binance.Endpoints.{
  api_key_header, signed_target, order_endpoint, binance_symbol, leverage_query, send_target,
  cancel_one, cancel_each, cancel_order, cancel_all_open_orders, json_value, dereference, rethrow,
  send_order_spot, send_order_futures, sign_and_send, get_open_orders, get_market, get_signed,
  set_leverage,
}
use crypto_con.System.Placed.{
  orders, is_order_path, one_if, Adds, Places, same-Adds, Places-pure, Places-raise, Places-bind,
}
use crypto_con.System.Placed.Requests.{get-Places, get_signed-Places, post-Adds, cancel-Places}

module _ (env : Env) where
  order_endpoint-path :
      (t : OrderType) → Lacks b'?' (order_endpoint t) × (is_order_path (order_endpoint t) ≡ true)
  order_endpoint-path t = elim (Bool-cases (order_type_code t == order_type_code OrderType.oco)) [
    | inl oco ↦ rw oco (omega arith, refl)
    | inr other ↦ rw other (omega arith, refl)
  ]

  sign_and_send-Places :
      (t : OrderType) (query : Bytes) (error : ErrorRef)
      → Places 1 (sign_and_send env t query error)
  unfolding send_target http_post
  sign_and_send-Places t query error = record {
    at = λ w.
        let (bare, order) = order_endpoint-path t in
        subst (λ b. Adds (one_if b) w (sign_and_send env t query error w).1) order
          (post-Adds env (order_endpoint t) query error w (record w { log = _ }) bare refl);
  }

  json_value-Places : {A : Type 0} (value : ℕ ⊎ A) → Places 0 (json_value value)
  json_value-Places (inl code) = Places-raise (simdjson_error code)
  json_value-Places (inr a) = Places-pure a

  dereference-Places : (p : Option TokenPair) → Places 0 (dereference p)
  dereference-Places none = Places-raise undefined
  dereference-Places (some p) = Places-pure p

  cancel_one-Places : (order : OrderView) → Places 0 (cancel_one env order)
  cancel_one-Places order =
      Places-bind (json_value order.symbol) _ (json_value-Places order.symbol) λ name.
        Places-bind (dereference (find name Binance.string_to_token_pair)) _
          (dereference-Places (find name Binance.string_to_token_pair))
          λ p.
            Places-bind (json_value order.order_id) _ (json_value-Places order.order_id)
              λ id. cancel-Places env p id dummy

  cancel_each-Places : (orders : List OrderView) → Places 0 (cancel_each env orders)
  unfolding cancel_each
  cancel_each-Places [] = Places-pure tt
  cancel_each-Places (order ∷ orders) =
      Places-bind (cancel_one env order) _ (cancel_one-Places order) λ _. cancel_each-Places orders

  rethrow-Adds :
      (message : Bytes) (w v : World) (r : Outcome (Unit {0}))
      → Adds 0 w v
      → Adds 0 w (rethrow message (r, v)).1
  rethrow-Adds message w v (ok done) g = g
  rethrow-Adds message w v (throw (simdjson_error code)) g = g
  rethrow-Adds message w v (throw (logic_error m)) g = g
  rethrow-Adds message w v (throw (system_error m)) g = g
  rethrow-Adds message w v (throw undefined) g = g
  rethrow-Adds message w v (throw foreign) g = g

  pub cancel_all-Places : Places 0 (cancel_all_open_orders env)
  unfolding cancel_all_open_orders get_open_orders
  cancel_all-Places =
      Places-bind (get_open_orders env) _ (get_signed-Places env (codes "/api/v3/openOrders"))
        λ body. record {
          at = λ w. rethrow-Adds (codes "Failed to cancel orders") w _ _ (
              (Places-bind (json_value (env.json.array body)) (cancel_each env)
                  (json_value-Places (env.json.array body)) cancel_each-Places).at
                w);
        }

  module _ {W : Type 0} ⦃d : Double W⦄ where
    send_spot-Adds :
        (b : Bool) (p : SpotParams W) (error : ErrorRef) (w : World) (r : Outcome Bytes × World)
        → Answers p env b w r
        → Adds (one_if b) w (continue r.0 (λ query. sign_and_send env p.type query error) r.1).1
    send_spot-Adds true p error w r (query, v, answered, same) =
        rw answered (omega (arith, (sign_and_send-Places p.type query error).at v, ap orders same))
    send_spot-Adds false p error w r (m, refused) = rw refused (same-Adds w w refl)

    -- An order of an implemented type is placed once, one of another type is not.
    pub send_spot-Places :
        (p : SpotParams W) (error : ErrorRef)
        → Places (one_if (is_implemented p.type)) (send_order_spot env p error)
    unfolding send_order_spot
    send_spot-Places p error = record {
      at = λ w.
          send_spot-Adds (is_implemented p.type) p error w (build_query_spot p env w)
            (build_query_spot-Answers p env w);
    }

    pub send_futures-Places :
        (p : FuturesParams W) (error : ErrorRef) → Places 1 (send_order_futures env p error)
    unfolding send_order_futures
    send_futures-Places p error = sign_and_send-Places p.type (build_query_futures p) error

  pub ping-Places : Places 0 (Endpoints.ping env)
  unfolding Endpoints.ping
  ping-Places = get-Places env (codes "/api/v3/ping") [] dummy

  pub server_time-Places : Places 0 (Endpoints.get_server_time env)
  unfolding Endpoints.get_server_time
  server_time-Places = get-Places env (codes "/api/v3/time") [] dummy

  pub exchange_info-Places : Places 0 (Endpoints.get_exchange_info env)
  unfolding Endpoints.get_exchange_info
  exchange_info-Places = get-Places env (codes "/api/v3/exchangeInfo") [] dummy
