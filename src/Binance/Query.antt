-- ===== src/Binance/Query.antt =====
-- `buildQuery` of src/policies/binancepolicy.h, for spot and for futures orders. A step `add_…`
-- appends one parameter to the query under construction.
pub mod Render
pub mod Spec
pub mod Decode
pub mod Plain
pub mod Spot
pub mod Futures
pub mod Keys
pub mod Omissions
pub mod Clock
pub mod Implemented
use crypto_con.Base.{
  ℕ, Bytes, codes, Bool, not, ◌&&◌, ◌++◌, Option, none, some, ltb, ◌==◌, if◌then◌else◌, is_empty,
  ◌▷◌,
}
use crypto_con.Types.{
  Side, TimeInForce, OrderType, SpotParams, FuturesParams, time_in_force_code, order_type_code,
  side_code,
}
use crypto_con.Types.StdMap.{index, side_key, time_in_force_key, order_type_key}
use crypto_con.Types.Tables.{side_to_string, time_in_force_to_string, order_type_to_string}
use crypto_con.Utils.Double.{Double}
use crypto_con.Utils.Number.{append_number, append_double}
use crypto_con.World.{Env}
use crypto_con.Exec.{Exec, logic_error, pure, raise, current_time_millis, ◌>>=◌}

-- `sideToString[s]`
unfoldable pub side_name : Side → Bytes
side_name s = (index s side_to_string).0

-- `timeInForceToString[t]`
unfoldable pub time_in_force_name : TimeInForce → Bytes
time_in_force_name t = (index t time_in_force_to_string).0

-- `orderTypeToString[t]`
unfoldable pub order_type_name : OrderType → Bytes
order_type_name t = (index t order_type_to_string).0

pub add_text : Bytes → Bytes → Bytes → Bytes
add_text key value query = query ++ key ++ value

module _ {W : Type 0} ⦃d : Double W⦄ where
  pub add_double : Bytes → W → Bytes → Bytes
  add_double key x query = append_double (query ++ key) x

  -- `if (x > 0.0) { … }`
  pub add_positive : Bytes → W → Bytes → Bytes
  add_positive key x query = if d.gt x d.nought then add_double key x query else query

  module _ (p : SpotParams W) where
    abbrev spot_start : Bytes
    spot_start = codes "symbol=" ++ p.symbol ++ codes "&side=" ++ side_name p.side

    abbrev add_client_order_id : Bytes → Bytes
    add_client_order_id query =
        if not (is_empty p.new_client_order_id)
        then add_text (codes "&newClientOrderId=") p.new_client_order_id query
        else query

    abbrev add_type : Bytes → Bytes
    add_type = add_text (codes "&type=") (order_type_name p.type)

    abbrev add_time_in_force : Bytes → Bytes
    add_time_in_force = add_text (codes "&timeInForce=") (time_in_force_name p.time_in_force)

    -- The `switch` on the order type; `none` is its `default`.
    pub add_order : OrderType → Bytes → Option Bytes
    add_order OrderType.limit query = some (
        query
        ▷ add_type
        ▷ add_time_in_force
        ▷ add_double (codes "&price=") p.price
        ▷ add_double (codes "&quantity=") p.quantity)
    add_order OrderType.market query =
        let typed = query ▷ add_type in
        some (
          if d.gt p.quantity d.nought
          then add_double (codes "&quantity=") p.quantity typed
          else add_positive (codes "&quoteOrderQty=") p.quote_quantity typed)
    add_order OrderType.stop_loss query = some (
        query
        ▷ add_type
        ▷ add_double (codes "&stopPrice=") p.stop_price
        ▷ add_positive (codes "&quantity=") p.quantity)
    add_order OrderType.stop_loss_limit query = some (
        query
        ▷ add_type
        ▷ add_double (codes "&stopPrice=") p.stop_price
        ▷ add_double (codes "&price=") p.price
        ▷ add_time_in_force
        ▷ add_positive (codes "&quantity=") p.quantity)
    add_order OrderType.take_profit query = some (
        query
        ▷ add_type
        ▷ add_double (codes "&stopPrice=") p.stop_price
        ▷ add_positive (codes "&quantity=") p.quantity)
    add_order OrderType.take_profit_limit query = some (
        query
        ▷ add_type
        ▷ add_double (codes "&stopPrice=") p.stop_price
        ▷ add_double (codes "&price=") p.price
        ▷ add_time_in_force
        ▷ add_positive (codes "&quantity=") p.quantity)
    add_order OrderType.oco query = some (
        query
        ▷ add_double (codes "&price=") p.price
        ▷ add_double (codes "&stopPrice=") p.stop_price
        ▷ add_double (codes "&stopLimitPrice=") p.stop_limit_price
        ▷ add_text (codes "&stopLimitTimeInForce=") (time_in_force_name p.stop_limit_time_in_force)
        ▷ add_positive (codes "&quantity=") p.quantity)
    add_order OrderType.limit_maker query = none
    add_order OrderType.cancel query = none
    add_order OrderType.unknown query = none

    pub add_timestamp : Env → Option Bytes → Exec Bytes
    add_timestamp env none = raise (logic_error (codes "Not implemented"))
    add_timestamp env (some query) = do
      millis ← (if ltb 0 p.timestamp then pure p.timestamp else current_time_millis env)
      pure (append_number (query ++ codes "&timestamp=") millis)

    -- `buildQuery(const OrderParams<MarketType::SPOT>&)`
    unfoldable pub build_query_spot : Env → Exec Bytes
    unfolding side_name time_in_force_name order_type_name add_order add_timestamp add_text
        add_double add_positive
    build_query_spot env = add_timestamp env (add_order p.type (add_client_order_id spot_start))

  module _ (p : FuturesParams W) where
    abbrev futures_start : Bytes
    futures_start =
        codes "symbol="
        ++ p.symbol
        ++ codes "&side="
        ++ side_name p.side
        ++ codes "&type="
        ++ order_type_name p.type

    abbrev add_time_in_force_futures : Bytes → Bytes
    add_time_in_force_futures query =
        if not (time_in_force_code p.time_in_force == time_in_force_code TimeInForce.gtc)
          && not (order_type_code p.type == order_type_code OrderType.market)
        then add_text (codes "&timeInForce=") (time_in_force_name p.time_in_force) query
        else query

    abbrev add_reduce_only : Bytes → Bytes
    add_reduce_only query = if p.reduce_only then query ++ codes "&reduceOnly=true" else query

    abbrev add_position_side : Bytes → Bytes
    add_position_side query =
        if not (side_code p.position_side == side_code Side.none)
        then add_text (codes "&positionSide=") (side_name p.position_side) query
        else query

    abbrev add_own_timestamp : Bytes → Bytes
    add_own_timestamp query =
        if ltb 0 p.timestamp
        then append_number (query ++ codes "&timestamp=") p.timestamp
        else query

    -- `buildQuery(const OrderParams<MarketType::FUTURES>&)`
    unfoldable pub build_query_futures : Bytes
    unfolding side_name time_in_force_name order_type_name add_text add_double add_positive
    build_query_futures =
        futures_start
        ▷ add_positive (codes "&quantity=") p.quantity
        ▷ add_positive (codes "&price=") p.price
        ▷ add_time_in_force_futures
        ▷ add_reduce_only
        ▷ add_position_side
        ▷ add_own_timestamp
