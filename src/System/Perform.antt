-- ===== src/System/Perform.antt =====
-- Every call of a client only adds authentic requests.
use crypto_con.Base.{
  ℕ, ◌+◌, Bytes, codes, List, [], ◌∷◌, Option, none, some, ◌⊎◌, inl, inr, refl, sym, subst, arith,
}
use crypto_con.Types.{TokenPair, SpotParams, FuturesParams}
use crypto_con.Types.StdMap.{find, text_key}
use crypto_con.Types.Tables.Binance
use crypto_con.Utils.Double.{Double}
use crypto_con.World.{World, Env, OrderView}
use crypto_con.Exec.{
  Outcome, ok, throw, logic_error, simdjson_error, system_error, undefined, foreign, ErrorRef,
  dummy,
}
use crypto_con.Binance.Query.{build_query_spot, build_query_futures}
use crypto_con.Binance.Query.Clock.{ReadsClock, build_query_spot-ReadsClock}
use crypto_con.Binance.Endpoints
use crypto_con.Binance.Endpoints.{
  cancel_one, cancel_each, cancel_all_open_orders, json_value, dereference, rethrow,
  send_order_spot, send_order_futures, sign_and_send, get_open_orders,
}
use crypto_con.Clients
use crypto_con.Clients.{binance_spot, binance_futures}
use crypto_con.Binance.Endpoints.Server.{split_path}
use crypto_con.System.Authentic.{path_of}
use crypto_con.System.{Call, perform}
use crypto_con.System.Grows.{Grows, same-Grows, Extends, Extends-pure, Extends-raise, Extends-bind}
use crypto_con.System.Calls.{
  get_signed-Extends, plain_get-Extends, market-Extends, keep_alive-Extends, close_listen-Extends,
  sign_and_send-Extends, cancel-Extends, leverage-Extends,
}

module _ (env : Env) where
  json_value-Extends : {A : Type 0} (value : ℕ ⊎ A) → Extends env (json_value value)
  json_value-Extends (inl code) = Extends-raise env (simdjson_error code)
  json_value-Extends (inr a) = Extends-pure env a

  dereference-Extends : (p : Option TokenPair) → Extends env (dereference p)
  dereference-Extends none = Extends-raise env undefined
  dereference-Extends (some p) = Extends-pure env p

  cancel_one-Extends : (order : OrderView) → Extends env (cancel_one env order)
  cancel_one-Extends order =
      Extends-bind env (json_value order.symbol) _ (json_value-Extends order.symbol) λ name.
        Extends-bind env (dereference (find name Binance.string_to_token_pair)) _
          (dereference-Extends (find name Binance.string_to_token_pair))
          λ p.
            Extends-bind env (json_value order.order_id) _ (json_value-Extends order.order_id)
              λ id. cancel-Extends env p id dummy

  cancel_each-Extends : (orders : List OrderView) → Extends env (cancel_each env orders)
  unfolding cancel_each
  cancel_each-Extends [] = Extends-pure env tt
  cancel_each-Extends (order ∷ orders) =
      Extends-bind env (cancel_one env order) _ (cancel_one-Extends order)
        λ _. cancel_each-Extends orders

  rethrow-Grows :
      (message : Bytes) (w v : World) (r : Outcome (Unit {0}))
      → Grows env w v
      → Grows env w (rethrow message (r, v)).1
  rethrow-Grows message w v (ok done) g = g
  rethrow-Grows message w v (throw (simdjson_error code)) g = record {
    added = g.added;
    requests = g.requests;
    authentic = g.authentic;
    api_key = g.api_key;
    secret_key = g.secret_key;
    ws = g.ws;
    kraken_pairs = g.kraken_pairs;
    symbols = g.symbols;
  }
  rethrow-Grows message w v (throw (logic_error m)) g = g
  rethrow-Grows message w v (throw (system_error m)) g = g
  rethrow-Grows message w v (throw undefined) g = g
  rethrow-Grows message w v (throw foreign) g = g

  open_orders-Extends : Extends env (get_open_orders env)
  unfolding get_open_orders
  open_orders-Extends = get_signed-Extends env (codes "/api/v3/openOrders") (omega arith) refl

  cancel_all-Extends : Extends env (cancel_all_open_orders env)
  unfolding cancel_all_open_orders
  cancel_all-Extends = Extends-bind env (get_open_orders env) _ open_orders-Extends λ body. record {
    at = λ w.
        let swept =
          Extends-bind env (json_value (env.json.array body)) (cancel_each env)
            (json_value-Extends (env.json.array body)) cancel_each-Extends in
        rethrow-Grows (codes "Failed to cancel orders") w _ _ (swept.at w);
  }

  clock-Grows : (w w' : World) → ReadsClock w w' → Grows env w w'
  clock-Grows w w' (inl e) =
      subst (Grows env w) (sym e) (same-Grows env w w (refl, refl, refl, refl, refl, λ t. refl))
  clock-Grows w w' (inr e) = subst (Grows env w) (sym e) (
      same-Grows env w (record w { clock_reads = w.clock_reads + 1 })
        (refl, refl, refl, refl, refl, λ t. refl))

  module _ {W : Type 0} ⦃d : Double W⦄ where
    send_spot-Extends :
        (p : SpotParams W) (error : ErrorRef) → Extends env (send_order_spot env p error)
    unfolding send_order_spot
    send_spot-Extends p error =
        Extends-bind env (build_query_spot p env) _
          (record { at = λ w. clock-Grows w _ (build_query_spot-ReadsClock p env w) })
          λ query. sign_and_send-Extends env p.type query error

    send_futures-Extends :
        (p : FuturesParams W) (error : ErrorRef) → Extends env (send_order_futures env p error)
    unfolding send_order_futures
    send_futures-Extends p error = sign_and_send-Extends env p.type (build_query_futures p) error

    pub perform-Grows : (c : Call W) (w : World) → Grows env w (perform env c w)
    unfolding perform Clients.send_order Clients.get_open_orders Clients.get_account_info
        Clients.cancel_all_open_orders Clients.get_order_book Clients.cancel_order
        Endpoints.get_open_positions Endpoints.ping Endpoints.get_server_time
        Endpoints.get_exchange_info Endpoints.get_order_book Endpoints.get_recent_trades
        Endpoints.get_account_info path_of split_path
    perform-Grows (Call.send_spot p error) w = (send_spot-Extends p error).at w
    perform-Grows (Call.send_futures p error) w = (send_futures-Extends p error).at w
    perform-Grows Call.open_orders w = (open_orders-Extends).at w
    perform-Grows Call.account_info w =
        (get_signed-Extends env (codes "/api/v3/account") (omega arith) refl).at w
    perform-Grows Call.cancel_all w = (cancel_all-Extends).at w
    perform-Grows (Call.order_book p limit) w =
        (market-Extends env (codes "/api/v3/depth") p limit (omega arith) refl).at w
    perform-Grows (Call.cancel p order_id error) w = (cancel-Extends env p order_id error).at w
    perform-Grows Call.open_positions w =
        (get_signed-Extends env (codes "/api/v3/openOrders") (omega arith) refl).at w
    perform-Grows Call.ping w =
        (plain_get-Extends env (codes "/api/v3/ping") (codes "/api/v3/ping") refl refl).at w
    perform-Grows Call.server_time w =
        (plain_get-Extends env (codes "/api/v3/time") (codes "/api/v3/time") refl refl).at w
    perform-Grows Call.exchange_info w =
        (plain_get-Extends env (codes "/api/v3/exchangeInfo") (codes "/api/v3/exchangeInfo") refl
            refl).at
          w
    perform-Grows (Call.recent_trades p limit) w =
        (market-Extends env (codes "/api/v3/trades") p limit (omega arith) refl).at w
    perform-Grows (Call.leverage p x) w = (leverage-Extends env p x).at w
    perform-Grows (Call.keep_alive listen_key) w = (keep_alive-Extends env listen_key).at w
    perform-Grows (Call.close_listen listen_key) w = (close_listen-Extends env listen_key).at w
