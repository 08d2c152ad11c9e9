-- ===== src/Binance/Query/Spec.antt =====
-- What a query string is to say, as a list of parameters: an account of `buildQuery` that names
-- the parameters of each order type and knows nothing of text.
use crypto_con.Base.{
  ℕ, Bytes, codes, List, [], ◌∷◌, ◌++◌, Option, none, some, Bool, not, ◌&&◌, ltb, ◌==◌,
  if◌then◌else◌, is_empty,
}
use crypto_con.Types.{
  Side, TimeInForce, OrderType, SpotParams, FuturesParams, time_in_force_code, order_type_code,
  side_code,
}
use crypto_con.Utils.Double.{Double}
use crypto_con.Utils.Number.{decimal}
use crypto_con.Binance.Query.{side_name, time_in_force_name, order_type_name}
use crypto_con.Binance.Query.Render.{Parameter}

-- One parameter if the test holds, none otherwise.
abbrev pub optional : Bool → Parameter → List Parameter
optional b p = if b then p ∷ [] else []

module _ {W : Type 0} ⦃d : Double W⦄ where
  abbrev pub number : Bytes → W → Parameter
  number key x = (key, d.to_chars x)

  abbrev pub positive : Bytes → W → List Parameter
  positive key x = optional (d.gt x d.nought) (number key x)

  module _ (p : SpotParams W) where
    abbrev pub type_parameter : Parameter
    type_parameter = (codes "type", order_type_name p.type)

    abbrev pub time_in_force_parameter : Parameter
    time_in_force_parameter = (codes "timeInForce", time_in_force_name p.time_in_force)

    abbrev pub amount : List Parameter
    amount =
        if d.gt p.quantity d.nought
        then number (codes "quantity") p.quantity ∷ []
        else positive (codes "quoteOrderQty") p.quote_quantity

    abbrev stop_parameters : List Parameter
    stop_parameters =
        type_parameter
        ∷ number (codes "stopPrice") p.stop_price
        ∷ positive (codes "quantity") p.quantity

    abbrev stop_limit_parameters : List Parameter
    stop_limit_parameters =
        type_parameter
        ∷ number (codes "stopPrice") p.stop_price
        ∷ number (codes "price") p.price
        ∷ time_in_force_parameter
        ∷ positive (codes "quantity") p.quantity

    -- The parameters of an order type between the client's order id and the timestamp; `none` for
    -- the order types that the program does not implement.
    abbrev pub order_parameters : OrderType → Option (List Parameter)
    order_parameters OrderType.limit = some (
        type_parameter
        ∷ time_in_force_parameter
        ∷ number (codes "price") p.price
        ∷ number (codes "quantity") p.quantity
        ∷ [])
    order_parameters OrderType.market = some (type_parameter ∷ amount)
    order_parameters OrderType.stop_loss = some stop_parameters
    order_parameters OrderType.take_profit = some stop_parameters
    order_parameters OrderType.stop_loss_limit = some stop_limit_parameters
    order_parameters OrderType.take_profit_limit = some stop_limit_parameters
    order_parameters OrderType.oco = some (
        number (codes "price") p.price
        ∷ number (codes "stopPrice") p.stop_price
        ∷ number (codes "stopLimitPrice") p.stop_limit_price
        ∷ (codes "stopLimitTimeInForce", time_in_force_name p.stop_limit_time_in_force)
        ∷ positive (codes "quantity") p.quantity)
    order_parameters _ = none

    -- The whole query of a spot order, given what its order type adds and its time.
    abbrev pub spot_parameters : List Parameter → ℕ → List Parameter
    spot_parameters order time =
        (codes "symbol", p.symbol)
        ∷ (codes "side", side_name p.side)
        ∷ (optional (not (is_empty p.new_client_order_id))
              (codes "newClientOrderId", p.new_client_order_id)
            ++ (order ++ (codes "timestamp", decimal time) ∷ []))

  module _ (p : FuturesParams W) where
    abbrev pub time_in_force_flag : List Parameter
    time_in_force_flag =
        optional
          (not (time_in_force_code p.time_in_force == time_in_force_code TimeInForce.gtc)
            && not (order_type_code p.type == order_type_code OrderType.market))
          (codes "timeInForce", time_in_force_name p.time_in_force)

    abbrev pub reduce_only_flag : List Parameter
    reduce_only_flag = optional p.reduce_only (codes "reduceOnly", codes "true")

    abbrev pub position_side_flag : List Parameter
    position_side_flag =
        optional (not (side_code p.position_side == side_code Side.none))
          (codes "positionSide", side_name p.position_side)

    abbrev pub time_flag : List Parameter
    time_flag = optional (ltb 0 p.timestamp) (codes "timestamp", decimal p.timestamp)

    -- The whole query of a futures order.
    abbrev pub futures_parameters : List Parameter
    futures_parameters =
        (codes "symbol", p.symbol)
        ∷ (codes "side", side_name p.side)
        ∷ (codes "type", order_type_name p.type)
        ∷ (positive (codes "quantity") p.quantity
            ++ (positive (codes "price") p.price
                ++ (time_in_force_flag ++ (reduce_only_flag ++ (position_side_flag ++ time_flag)))))
