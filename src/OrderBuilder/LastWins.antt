-- ===== src/OrderBuilder/LastWins.antt =====
-- The order that a chain of calls builds.
use crypto_con.Base.{ℕ, Bytes, Bool, false, List, [], ◌∷◌, Option, none, some, ◌≡◌, refl}
use crypto_con.Types.{Side, TimeInForce, OrderType, SpotParams, FuturesParams}
use crypto_con.Utils.Double.{Double}
use crypto_con.OrderBuilder.{
  SpotCall, FuturesCall, spot_call, futures_call, build_spot, build_futures,
}

-- A setter, or a reset with the value that it leaves.
abbrev pub given : {A : Type 0} → Option A → A → A
given none a = a
given (some x) a = x

-- The last value that the calls give to a member, or the one it had.
abbrev pub last : {C A : Type 0} → (C → Option A) → List C → A → A
last pick [] a = a
last pick (c ∷ calls) a = last pick calls (given (pick c) a)

module _ {W : Type 0} ⦃d : Double W⦄ where
  abbrev pub spot_symbol : SpotCall W → Option Bytes
  spot_symbol SpotCall.reset = some []
  spot_symbol (SpotCall.symbol x) = some x
  spot_symbol c = none

  abbrev pub spot_side : SpotCall W → Option Side
  spot_side SpotCall.reset = some Side.buy
  spot_side (SpotCall.side x) = some x
  spot_side c = none

  abbrev pub spot_price : SpotCall W → Option W
  spot_price SpotCall.reset = some d.nought
  spot_price (SpotCall.price x) = some x
  spot_price c = none

  abbrev pub spot_stop_price : SpotCall W → Option W
  spot_stop_price SpotCall.reset = some d.nought
  spot_stop_price (SpotCall.stop_price x) = some x
  spot_stop_price c = none

  abbrev pub spot_stop_limit_price : SpotCall W → Option W
  spot_stop_limit_price SpotCall.reset = some d.nought
  spot_stop_limit_price (SpotCall.stop_limit_price x) = some x
  spot_stop_limit_price c = none

  abbrev pub spot_quantity : SpotCall W → Option W
  spot_quantity SpotCall.reset = some d.nought
  spot_quantity (SpotCall.quantity x) = some x
  spot_quantity c = none

  abbrev pub spot_type : SpotCall W → Option OrderType
  spot_type SpotCall.reset = some OrderType.market
  spot_type (SpotCall.type x) = some x
  spot_type c = none

  abbrev pub spot_new_client_order_id : SpotCall W → Option Bytes
  spot_new_client_order_id SpotCall.reset = some []
  spot_new_client_order_id (SpotCall.new_client_order_id x) = some x
  spot_new_client_order_id c = none

  abbrev pub spot_time_in_force : SpotCall W → Option TimeInForce
  spot_time_in_force SpotCall.reset = some TimeInForce.gtc
  spot_time_in_force (SpotCall.time_in_force x) = some x
  spot_time_in_force c = none

  abbrev pub spot_stop_limit_time_in_force : SpotCall W → Option TimeInForce
  spot_stop_limit_time_in_force SpotCall.reset = some TimeInForce.gtc
  spot_stop_limit_time_in_force (SpotCall.stop_limit_time_in_force x) = some x
  spot_stop_limit_time_in_force c = none

  abbrev pub spot_timestamp : SpotCall W → Option ℕ
  spot_timestamp SpotCall.reset = some 0
  spot_timestamp (SpotCall.timestamp x) = some x
  spot_timestamp c = none

  abbrev pub spot_quote_order_qty : SpotCall W → Option W
  spot_quote_order_qty SpotCall.reset = some d.nought
  spot_quote_order_qty (SpotCall.quote_order_qty x) = some x
  spot_quote_order_qty c = none

  abbrev pub futures_symbol : FuturesCall W → Option Bytes
  futures_symbol FuturesCall.reset = some []
  futures_symbol (FuturesCall.symbol x) = some x
  futures_symbol c = none

  abbrev pub futures_side : FuturesCall W → Option Side
  futures_side FuturesCall.reset = some Side.buy
  futures_side (FuturesCall.side x) = some x
  futures_side c = none

  abbrev pub futures_price : FuturesCall W → Option W
  futures_price FuturesCall.reset = some d.nought
  futures_price (FuturesCall.price x) = some x
  futures_price c = none

  abbrev pub futures_quantity : FuturesCall W → Option W
  futures_quantity FuturesCall.reset = some d.nought
  futures_quantity (FuturesCall.quantity x) = some x
  futures_quantity c = none

  abbrev pub futures_type : FuturesCall W → Option OrderType
  futures_type FuturesCall.reset = some OrderType.market
  futures_type (FuturesCall.type x) = some x
  futures_type c = none

  abbrev pub futures_new_client_order_id : FuturesCall W → Option Bytes
  futures_new_client_order_id FuturesCall.reset = some []
  futures_new_client_order_id (FuturesCall.new_client_order_id x) = some x
  futures_new_client_order_id c = none

  abbrev pub futures_time_in_force : FuturesCall W → Option TimeInForce
  futures_time_in_force FuturesCall.reset = some TimeInForce.gtc
  futures_time_in_force (FuturesCall.time_in_force x) = some x
  futures_time_in_force c = none

  abbrev pub futures_timestamp : FuturesCall W → Option ℕ
  futures_timestamp FuturesCall.reset = some 0
  futures_timestamp (FuturesCall.timestamp x) = some x
  futures_timestamp c = none

  abbrev pub futures_reduce_only : FuturesCall W → Option Bool
  futures_reduce_only FuturesCall.reset = some false
  futures_reduce_only (FuturesCall.reduce_only x) = some x
  futures_reduce_only c = none

  abbrev pub futures_position_side : FuturesCall W → Option Side
  futures_position_side FuturesCall.reset = some Side.none
  futures_position_side (FuturesCall.position_side x) = some x
  futures_position_side c = none

  abbrev pub spot_other_id : SpotCall W → Option Bytes
  spot_other_id SpotCall.reset = some []
  spot_other_id c = none

  -- Every member with the last value that the calls give it.
  abbrev pub spot_lasts : List (SpotCall W) → SpotParams W → SpotParams W
  spot_lasts calls p = record {
    symbol = last spot_symbol calls p.symbol;
    side = last spot_side calls p.side;
    price = last spot_price calls p.price;
    stop_price = last spot_stop_price calls p.stop_price;
    stop_limit_price = last spot_stop_limit_price calls p.stop_limit_price;
    quantity = last spot_quantity calls p.quantity;
    type = last spot_type calls p.type;
    new_client_order_id = last spot_new_client_order_id calls p.new_client_order_id;
    time_in_force = last spot_time_in_force calls p.time_in_force;
    stop_limit_time_in_force = last spot_stop_limit_time_in_force calls p.stop_limit_time_in_force;
    timestamp = last spot_timestamp calls p.timestamp;
    quote_quantity = last spot_quote_order_qty calls p.quote_quantity;
    limit_client_order_id = last spot_other_id calls p.limit_client_order_id;
    stop_client_order_id = last spot_other_id calls p.stop_client_order_id;
  }

  -- the same for a futures order
  abbrev pub futures_lasts : List (FuturesCall W) → FuturesParams W → FuturesParams W
  futures_lasts calls p = record {
    symbol = last futures_symbol calls p.symbol;
    side = last futures_side calls p.side;
    price = last futures_price calls p.price;
    quantity = last futures_quantity calls p.quantity;
    type = last futures_type calls p.type;
    new_client_order_id = last futures_new_client_order_id calls p.new_client_order_id;
    time_in_force = last futures_time_in_force calls p.time_in_force;
    timestamp = last futures_timestamp calls p.timestamp;
    reduce_only = last futures_reduce_only calls p.reduce_only;
    position_side = last futures_position_side calls p.position_side;
  }

  -- After a chain of calls every member of a spot order has the last value that a setter or a `reset`
  -- gave it, or the value from before if none did, whatever other calls there are in between.
  pub build_spot_lem :
      (calls : List (SpotCall W)) (p : SpotParams W) → build_spot calls p ≡ spot_lasts calls p
  unfolding build_spot
  build_spot_lem [] p = refl
  build_spot_lem (SpotCall.reset ∷ calls) p = build_spot_lem calls (spot_call SpotCall.reset p)
  build_spot_lem ((SpotCall.symbol x) ∷ calls) p =
      build_spot_lem calls (spot_call (SpotCall.symbol x) p)
  build_spot_lem ((SpotCall.side x) ∷ calls) p =
      build_spot_lem calls (spot_call (SpotCall.side x) p)
  build_spot_lem ((SpotCall.price x) ∷ calls) p =
      build_spot_lem calls (spot_call (SpotCall.price x) p)
  build_spot_lem ((SpotCall.stop_price x) ∷ calls) p =
      build_spot_lem calls (spot_call (SpotCall.stop_price x) p)
  build_spot_lem ((SpotCall.stop_limit_price x) ∷ calls) p =
      build_spot_lem calls (spot_call (SpotCall.stop_limit_price x) p)
  build_spot_lem ((SpotCall.quantity x) ∷ calls) p =
      build_spot_lem calls (spot_call (SpotCall.quantity x) p)
  build_spot_lem ((SpotCall.type x) ∷ calls) p =
      build_spot_lem calls (spot_call (SpotCall.type x) p)
  build_spot_lem ((SpotCall.new_client_order_id x) ∷ calls) p =
      build_spot_lem calls (spot_call (SpotCall.new_client_order_id x) p)
  build_spot_lem ((SpotCall.time_in_force x) ∷ calls) p =
      build_spot_lem calls (spot_call (SpotCall.time_in_force x) p)
  build_spot_lem ((SpotCall.stop_limit_time_in_force x) ∷ calls) p =
      build_spot_lem calls (spot_call (SpotCall.stop_limit_time_in_force x) p)
  build_spot_lem ((SpotCall.timestamp x) ∷ calls) p =
      build_spot_lem calls (spot_call (SpotCall.timestamp x) p)
  build_spot_lem ((SpotCall.quote_order_qty x) ∷ calls) p =
      build_spot_lem calls (spot_call (SpotCall.quote_order_qty x) p)

  -- After a chain of calls every member of a futures order has the last value that a setter or a
  -- `reset` gave it, or the value from before if none did, whatever other calls there are in between.
  pub build_futures_lem :
      (calls : List (FuturesCall W)) (p : FuturesParams W)
      → build_futures calls p ≡ futures_lasts calls p
  unfolding build_futures
  build_futures_lem [] p = refl
  build_futures_lem (FuturesCall.reset ∷ calls) p =
      build_futures_lem calls (futures_call FuturesCall.reset p)
  build_futures_lem ((FuturesCall.symbol x) ∷ calls) p =
      build_futures_lem calls (futures_call (FuturesCall.symbol x) p)
  build_futures_lem ((FuturesCall.side x) ∷ calls) p =
      build_futures_lem calls (futures_call (FuturesCall.side x) p)
  build_futures_lem ((FuturesCall.price x) ∷ calls) p =
      build_futures_lem calls (futures_call (FuturesCall.price x) p)
  build_futures_lem ((FuturesCall.quantity x) ∷ calls) p =
      build_futures_lem calls (futures_call (FuturesCall.quantity x) p)
  build_futures_lem ((FuturesCall.type x) ∷ calls) p =
      build_futures_lem calls (futures_call (FuturesCall.type x) p)
  build_futures_lem ((FuturesCall.new_client_order_id x) ∷ calls) p =
      build_futures_lem calls (futures_call (FuturesCall.new_client_order_id x) p)
  build_futures_lem ((FuturesCall.time_in_force x) ∷ calls) p =
      build_futures_lem calls (futures_call (FuturesCall.time_in_force x) p)
  build_futures_lem ((FuturesCall.timestamp x) ∷ calls) p =
      build_futures_lem calls (futures_call (FuturesCall.timestamp x) p)
  build_futures_lem ((FuturesCall.reduce_only x) ∷ calls) p =
      build_futures_lem calls (futures_call (FuturesCall.reduce_only x) p)
  build_futures_lem ((FuturesCall.position_side x) ∷ calls) p =
      build_futures_lem calls (futures_call (FuturesCall.position_side x) p)
