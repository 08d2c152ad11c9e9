-- ===== src/OrderBuilder/Sent.antt =====
-- Orders from the builder of src/orderbuilder.h, through a client, to the exchange.
use crypto_con.Base.{
  ℕ, ◌<◌, ◌^◌, List, [], ◌∷◌, Option, none, some, ◌≡◌, refl, map, arith, All, Lacks,
}
use crypto_con.Types.{Side, OrderType}
use crypto_con.Utils.Double.{Double, PrintsDoubles}
use crypto_con.World.{World, Env, post}
use crypto_con.Exec.{ErrorRef}
use crypto_con.Binance.Query.Spec.{order_parameters, futures_parameters}
use crypto_con.Binance.Query.Decode.{decoded}
use crypto_con.Binance.Endpoints.{order_endpoint}
use crypto_con.Binance.Endpoints.Signed.{Receives}
use crypto_con.Binance.Endpoints.Orders.{Sends, send_order_spot-Sends, send_order_futures-Receives}
use crypto_con.Clients.{send_order, binance_spot, binance_futures}
use crypto_con.OrderBuilder.{
  SpotCall, FuturesCall, fresh_spot, fresh_futures, build_spot, build_futures,
}
use crypto_con.OrderBuilder.LastWins.{
  given, last, spot_lasts, futures_lasts, spot_symbol, spot_timestamp, spot_new_client_order_id,
  futures_symbol, futures_timestamp, build_spot_lem, build_futures_lem,
}

-- What a call gives to a member, if anything, has the property.
abbrev Holds : {A : Type 0} → (A → Type 0) → Option A → Type 0
Holds P none = Unit
Holds P (some x) = P x

given_lem : {A : Type 0} (P : A → Type 0) (o : Option A) (a : A) → Holds P o → P a → P (given o a)
given_lem P none a new old = old
given_lem P (some x) a new old = new

module _ {C A : Type 0} (Q : C → Type 0) (P : A → Type 0) (pick : C → Option A)
    (gives : (c : C) → Q c → Holds P (pick c)) where
  last_lem : (calls : List C) (a : A) → All Q calls → P a → P (last pick calls a)
  last_lem [] a h old = old
  last_lem (c ∷ calls) a (h, hs) old =
      last_lem calls (given (pick c) a) hs (given_lem P (pick c) a (gives c h) old)

abbrev IsTime : ℕ → Type 0
IsTime t = t < 2 ^ 64

-- A time has 64 bits, and a text holds no `&`.
abbrev pub IsPlainSpot : {W : Type 0} → SpotCall W → Type 0
IsPlainSpot (SpotCall.timestamp t) = IsTime t
IsPlainSpot (SpotCall.symbol s) = Lacks b'&' s
IsPlainSpot (SpotCall.new_client_order_id s) = Lacks b'&' s
IsPlainSpot c = Unit

abbrev pub IsPlainFutures : {W : Type 0} → FuturesCall W → Type 0
IsPlainFutures (FuturesCall.timestamp t) = IsTime t
IsPlainFutures (FuturesCall.symbol s) = Lacks b'&' s
IsPlainFutures c = Unit

module _ {W : Type 0} ⦃d : Double W⦄ where
  spot_timestamp-Holds : (c : SpotCall W) → IsPlainSpot c → Holds IsTime (spot_timestamp c)
  spot_timestamp-Holds SpotCall.reset h = omega arith
  spot_timestamp-Holds (SpotCall.timestamp t) h = h
  spot_timestamp-Holds c h = tt

  spot_symbol-Holds : (c : SpotCall W) → IsPlainSpot c → Holds (Lacks b'&') (spot_symbol c)
  spot_symbol-Holds SpotCall.reset h = tt
  spot_symbol-Holds (SpotCall.symbol s) h = h
  spot_symbol-Holds c h = tt

  spot_new_client_order_id-Holds :
      (c : SpotCall W) → IsPlainSpot c → Holds (Lacks b'&') (spot_new_client_order_id c)
  spot_new_client_order_id-Holds SpotCall.reset h = tt
  spot_new_client_order_id-Holds (SpotCall.new_client_order_id s) h = h
  spot_new_client_order_id-Holds c h = tt

  futures_timestamp-Holds :
      (c : FuturesCall W) → IsPlainFutures c → Holds IsTime (futures_timestamp c)
  futures_timestamp-Holds FuturesCall.reset h = omega arith
  futures_timestamp-Holds (FuturesCall.timestamp t) h = h
  futures_timestamp-Holds c h = tt

  futures_symbol-Holds :
      (c : FuturesCall W) → IsPlainFutures c → Holds (Lacks b'&') (futures_symbol c)
  futures_symbol-Holds FuturesCall.reset h = tt
  futures_symbol-Holds (FuturesCall.symbol s) h = h
  futures_symbol-Holds c h = tt

module _ {W : Type 0} ⦃d : Double W⦄ (prints : PrintsDoubles W) (env : Env) (error : ErrorRef)
    (s : Side) (t : OrderType) (w : World) where
  -- A new builder on which a chain of calls is made, and whose order a spot client then sends: every
  -- member of the order has the last value that a setter or a `reset` gave it, or its initial one,
  -- whatever calls there are in between; if the type is implemented, the exchange accepts one
  -- POST request with exactly the parameters specified for these values, URL-decoded, and otherwise
  -- the call throws and nothing changes. The times that are set have 64 bits, the texts hold no `&`, and a `double`
  -- is printed as a numeral that fits its buffer.
  pub built_spot-Sends :
      (calls : List (SpotCall W))
      → All IsPlainSpot calls
      → let p = build_spot calls (fresh_spot s t) in
        let q = spot_lasts calls (fresh_spot s t) in
        (p ≡ q)
        × Sends env error q w (order_parameters q q.type) (send_order (binance_spot env) p error w)
  unfolding send_order
  built_spot-Sends calls plain =
      let q = spot_lasts calls (fresh_spot s t) in
      rw (build_spot_lem calls (fresh_spot s t)) (
        refl,
        send_order_spot-Sends env error q w prints
            (last_lem IsPlainSpot IsTime spot_timestamp spot_timestamp-Holds calls 0 plain
              (omega arith))
            (last_lem IsPlainSpot (Lacks b'&') spot_symbol spot_symbol-Holds calls [] plain tt)
            (last_lem IsPlainSpot (Lacks b'&') spot_new_client_order_id
              spot_new_client_order_id-Holds calls [] plain tt),
      )

  -- A new builder on which a chain of calls is made, and whose order a futures client then sends:
  -- every member of the order has the last value that a setter or a `reset` gave it, or its initial
  -- one, whatever calls there are in between, and the exchange accepts one POST request with exactly
  -- the parameters specified for these values, URL-decoded. The times that are set have 64 bits, the symbols hold no
  -- `&`, and a `double` is printed as a numeral that fits its buffer.
  pub built_futures-Receives :
      (calls : List (FuturesCall W))
      → All IsPlainFutures calls
      → let p = build_futures calls (fresh_futures s t) in
        let q = futures_lasts calls (fresh_futures s t) in
        (p ≡ q)
        × Receives env w post
            (order_endpoint q.type)
            (map decoded (futures_parameters q))
            (send_order (binance_futures env) p error w)
  unfolding send_order
  built_futures-Receives calls plain =
      let q = futures_lasts calls (fresh_futures s t) in
      rw (build_futures_lem calls (fresh_futures s t)) (
        refl,
        send_order_futures-Receives env error q w prints
            (last_lem IsPlainFutures IsTime futures_timestamp futures_timestamp-Holds calls 0 plain
              (omega arith))
            (last_lem IsPlainFutures (Lacks b'&') futures_symbol futures_symbol-Holds calls [] plain
              tt),
      )
