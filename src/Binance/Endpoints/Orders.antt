-- ===== src/Binance/Endpoints/Orders.antt =====
-- What the exchange makes of an order.
use crypto_con.Base.{
  ◌<◌, ◌^◌, Bytes, codes, List, [], ltb, ◌+◌, ◌≡◌, refl, map, Option, none, some, arith, Lacks,
  Bool-cases, inl, inr, ◌==◌,
}
use crypto_con.Types.{OrderType, order_type_code, SpotParams, FuturesParams}
use crypto_con.Utils.Double.{Double, PrintsDoubles}
use crypto_con.World.{World, Env, post}
use crypto_con.Exec.{Outcome, throw, logic_error, continue, ErrorRef}
use crypto_con.Rest.{http_post, request_string}
use crypto_con.Rest.Exchange.{exchange_requests}
use crypto_con.Binance.Query.{build_query_spot, build_query_futures}
use crypto_con.Binance.Query.Render.{Parameter}
use crypto_con.Binance.Query.Decode.{read_query, decoded}
use crypto_con.Binance.Query.Spec.{order_parameters, spot_parameters, futures_parameters}
use crypto_con.Binance.Query.Spot.{order_time, after_time, Says, build_query_spot-Says}
use crypto_con.Binance.Query.Futures.{build_query_futures-render}
use crypto_con.Binance.Endpoints.{
  api_key_header, order_endpoint, sign_and_send, send_target, send_order_spot, send_order_futures,
}
use crypto_con.Binance.Endpoints.Signed.{Receives, receive_parameters}

order_endpoint-Lacks : (t : OrderType) → Lacks b'?' (order_endpoint t)
order_endpoint-Lacks t = elim (Bool-cases (order_type_code t == order_type_code OrderType.oco)) [
  | inl oco ↦ rw oco (omega arith)
  | inr other ↦ rw other (omega arith)
]

module _ (env : Env) (error : ErrorRef) where
  pub sign_and_send-Receives :
      (w : World) (t : OrderType) (query : Bytes) {ps : List Parameter}
      → read_query query ≡ ps
      → Receives env w post (order_endpoint t) ps (sign_and_send env t query error w)
  unfolding send_target http_post
  sign_and_send-Receives w t query parsed = (
    request_string post _ (api_key_header w) [] w,
    exchange_requests env _ error _,
    refl,
    receive_parameters env w (order_endpoint t) query (order_endpoint-Lacks t) parsed,
    refl,
  )

  module _ {W : Type 0} ⦃d : Double W⦄ (p : SpotParams W) (w : World) where
    -- What sending a spot order does: its request is received with the specified parameters as URL
    -- decoding leaves them, or the order type is not implemented and nothing is sent.
    abbrev pub Sends : Option (List Parameter) → Outcome Bytes × World → Type 0
    Sends none (r, w') = (r ≡ throw (logic_error (codes "Not implemented"))) × (w' ≡ w)
    Sends (some ps) r =
        Receives env w post (order_endpoint p.type)
          (map decoded (spot_parameters p ps (order_time p env w))) r

    send_after :
        (query : Bytes) {ps : List Parameter}
        → read_query query ≡ ps
        → Receives env w post
            (order_endpoint p.type)
            ps
            (sign_and_send env p.type query error (after_time p w))
    send_after query parsed = elim (Bool-cases (ltb 0 p.timestamp)) [
      | inl given ↦ rw given (sign_and_send-Receives w p.type query parsed)
      | inr missing ↦ rw missing (
          sign_and_send-Receives (record w { clock_reads = w.clock_reads + 1 }) p.type query parsed)
    ]

    send_built :
        (o : Option (List Parameter)) (b : Outcome Bytes × World)
        → Says p env w o b
        → Sends o (continue b.0 (λ query. sign_and_send env p.type query error) b.1)
    send_built none (r, w') says = rw (says.0, says.1) (refl, refl)
    send_built (some ps) (r, w') says = rw (says.0, says.3) (send_after _ says.2)

    -- A spot order of an implemented type is handed over in one POST request, which the exchange
    -- accepts for the endpoint of its type with exactly the specified parameters. They are sent as
    -- they are and read URL-decoded, so that a `+` or an escape in one arrives as something else. For
    -- any other type the call throws and the state is as before. The order's time has 64 bits, and its texts
    -- hold no `&`. A `double` is printed as a numeral that fits its buffer.
    pub send_order_spot-Sends :
        PrintsDoubles W
        → p.timestamp < 2 ^ 64
        → Lacks b'&' p.symbol
        → Lacks b'&' p.new_client_order_id
        → Sends (order_parameters p p.type) (send_order_spot env p error w)
    unfolding send_order_spot
    send_order_spot-Sends prints bound symbol id =
        send_built _ (build_query_spot p env w)
          (build_query_spot-Says prints p env w bound symbol id)

  -- A futures order is handed over in one POST request, which the exchange accepts with exactly the
  -- specified parameters. They are sent as they are and read URL-decoded, so that a `+` or an escape
  -- in one arrives as something else. The order's time has 64 bits, and its symbol holds no `&`. A `double` is
  -- printed as a numeral that fits its buffer.
  pub send_order_futures-Receives :
      {W : Type 0} ⦃d : Double W⦄ (p : FuturesParams W) (w : World)
      → PrintsDoubles W
      → p.timestamp < 2 ^ 64
      → Lacks b'&' p.symbol
      → Receives env w post
          (order_endpoint p.type)
          (map decoded (futures_parameters p))
          (send_order_futures env p error w)
  unfolding send_order_futures
  send_order_futures-Receives p w prints bound symbol =
      sign_and_send-Receives w p.type (build_query_futures p)
        (build_query_futures-render p prints bound symbol).2
