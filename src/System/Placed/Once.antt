-- ===== src/System/Placed/Once.antt =====
-- The orders that a client has placed are those that its program asked for.
use crypto_con.Base.{ℕ, ◌+◌, Bytes, codes, ◌≡◌, refl, ap, arith}
use crypto_con.Utils.Double.{Double}
use crypto_con.World.{World, Env}
use crypto_con.Rest.{connect}
use crypto_con.Rest.Exchange.{connect_state}
use crypto_con.Binance.Endpoints
use crypto_con.Binance.Query.Implemented.{is_implemented}
use crypto_con.Clients
use crypto_con.Clients.{Policy, blank, construct, run_open}
use crypto_con.System.{Call, perform, SystemStep, Runs}
use crypto_con.System.Feeds.{open_feed-requests}
use crypto_con.System.Quiet.{Step-IsQuiet}
use crypto_con.System.Placed.{orders, one_if, Adds, same-Adds}
use crypto_con.System.Placed.Requests.{
  get_signed-Places, market-Places, keep_alive-Places, close_listen-Places, cancel-Places,
  leverage-Places,
}
use crypto_con.System.Placed.Calls.{
  cancel_all-Places, send_spot-Places, send_futures-Places, ping-Places, server_time-Places,
  exchange_info-Places,
}

-- The orders that a call asks for: one if it is of a type that `buildQuery` implements.
abbrev pub asks_of : {W : Type 0} → Call W → ℕ
asks_of (Call.send_spot p error) = one_if (is_implemented p.type)
asks_of (Call.send_futures p error) = 1
asks_of c = 0

module _ {W : Type 0} ⦃d : Double W⦄ {env : Env} where
  abbrev step_asks : {w w' : World} → SystemStep W env w w' → ℕ
  step_asks (SystemStep.call c) = asks_of c
  step_asks (SystemStep.feed f) = 0
  step_asks (SystemStep.socket step) = 0

  -- The orders that a run asks for.
  unfoldable pub asked : {w w' : World} → Runs W env w w' → ℕ
  asked Runs.start = 0
  asked (Runs.next run step) = asked run + step_asks step

module _ (env : Env) {W : Type 0} ⦃d : Double W⦄ where
  perform-Adds : (c : Call W) (w : World) → Adds (asks_of c) w (perform env c w)
  unfolding perform Clients.send_order Clients.get_open_orders Clients.get_account_info
      Clients.cancel_all_open_orders Clients.get_order_book Clients.cancel_order
      Endpoints.get_open_positions Endpoints.get_open_orders Endpoints.get_order_book
      Endpoints.get_recent_trades Endpoints.get_account_info
  perform-Adds (Call.send_spot p error) w = (send_spot-Places env p error).at w
  perform-Adds (Call.send_futures p error) w = (send_futures-Places env p error).at w
  perform-Adds Call.open_orders w = (get_signed-Places env (codes "/api/v3/openOrders")).at w
  perform-Adds Call.account_info w = (get_signed-Places env (codes "/api/v3/account")).at w
  perform-Adds Call.cancel_all w = (cancel_all-Places env).at w
  perform-Adds (Call.order_book p limit) w =
      (market-Places env (codes "/api/v3/depth") p limit).at w
  perform-Adds (Call.cancel p order_id error) w = (cancel-Places env p order_id error).at w
  perform-Adds Call.open_positions w = (get_signed-Places env (codes "/api/v3/openOrders")).at w
  perform-Adds Call.ping w = (ping-Places env).at w
  perform-Adds Call.server_time w = (server_time-Places env).at w
  perform-Adds Call.exchange_info w = (exchange_info-Places env).at w
  perform-Adds (Call.recent_trades p limit) w =
      (market-Places env (codes "/api/v3/trades") p limit).at w
  perform-Adds (Call.leverage p x) w = (leverage-Places env p x).at w
  perform-Adds (Call.keep_alive listen_key) w = (keep_alive-Places env listen_key).at w
  perform-Adds (Call.close_listen listen_key) w = (close_listen-Places env listen_key).at w

  SystemStep-Adds : {w w' : World} (step : SystemStep W env w w') → Adds (step_asks step) w w'
  SystemStep-Adds {w} (SystemStep.call c) = perform-Adds c w
  SystemStep-Adds {w} {w'} (SystemStep.feed f) = same-Adds w w' (open_feed-requests env W f w)
  SystemStep-Adds {w} {w'} (SystemStep.socket step) =
      same-Adds w w' (ap (λ (x : World). x.rest.requests) (Step-IsQuiet env step))

  Runs-Adds : {w w' : World} (run : Runs W env w w') → Adds (asked run) w w'
  unfolding asked
  Runs-Adds {w} Runs.start = same-Adds w w refl
  Runs-Adds (Runs.next run step) = omega (arith, Runs-Adds run, SystemStep-Adds step)

-- From its construction on, in any interleaving of its calls, its feeds, and the steps of its
-- WebSocket client and sockets, a client has handed over as many new orders as its program has sent
-- of the types that `buildQuery` implements: each exactly once, whatever fails on the network and
-- whether the calls return or throw; and no other call hands over a new order.
pub construct-orders :
    {P W : Type 0} ⦃d : Double W⦄ (env : Env) (policy : Policy P) (key secret : Bytes) (w : World)
    (run : Runs W env (construct env policy key secret).1 w)
    → orders w.rest.requests ≡ asked run
unfolding construct
construct-orders env policy key secret w run =
    let empty : orders (connect env (blank policy.rest_host key secret)).1.rest.requests ≡ 0 =
      rw (connect_state env (blank policy.rest_host key secret)) refl in
    omega (arith, Runs-Adds env run, empty)
