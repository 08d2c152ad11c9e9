-- ===== src/OrderBuilder.antt =====
-- src/orderbuilder.h: the builder of order parameters. A call of a setter is a value, so that a
-- chain of calls is a list.
pub mod LastWins
pub mod Sent
use crypto_con.Base.{ℕ, Bytes, Bool, true, false, List, [], ◌∷◌}
use crypto_con.Types.{Side, TimeInForce, OrderType, SpotParams, FuturesParams}
use crypto_con.Utils.Double.{Double}

pub data SpotCall (W : Type 0) : Type 0 where
  reset : SpotCall W
  symbol : Bytes → SpotCall W
  side : Side → SpotCall W
  price : W → SpotCall W
  stop_price : W → SpotCall W
  stop_limit_price : W → SpotCall W
  quantity : W → SpotCall W
  type : OrderType → SpotCall W
  new_client_order_id : Bytes → SpotCall W
  time_in_force : TimeInForce → SpotCall W
  stop_limit_time_in_force : TimeInForce → SpotCall W
  timestamp : ℕ → SpotCall W
  quote_order_qty : W → SpotCall W

pub data FuturesCall (W : Type 0) : Type 0 where
  reset : FuturesCall W
  symbol : Bytes → FuturesCall W
  side : Side → FuturesCall W
  price : W → FuturesCall W
  quantity : W → FuturesCall W
  type : OrderType → FuturesCall W
  new_client_order_id : Bytes → FuturesCall W
  time_in_force : TimeInForce → FuturesCall W
  timestamp : ℕ → FuturesCall W
  reduce_only : Bool → FuturesCall W
  position_side : Side → FuturesCall W

module _ {W : Type 0} ⦃d : Double W⦄ where
  -- The members with their initializers; `side` and `type` have none, so a new builder holds there
  -- whatever was in memory, and `OrderParams<M>{}` their zero.
  abbrev pub fresh_spot : Side → OrderType → SpotParams W
  fresh_spot s t = record {
    symbol = [];
    side = s;
    type = t;
    price = d.nought;
    stop_price = d.nought;
    stop_limit_price = d.nought;
    new_client_order_id = [];
    limit_client_order_id = [];
    stop_client_order_id = [];
    quantity = d.nought;
    quote_quantity = d.nought;
    time_in_force = TimeInForce.gtc;
    stop_limit_time_in_force = TimeInForce.gtc;
    timestamp = 0;
  }

  abbrev pub fresh_futures : Side → OrderType → FuturesParams W
  fresh_futures s t = record {
    symbol = [];
    side = s;
    type = t;
    price = d.nought;
    quantity = d.nought;
    new_client_order_id = [];
    time_in_force = TimeInForce.gtc;
    reduce_only = false;
    position_side = Side.none;
    timestamp = 0;
  }

  -- One call on the builder.
  abbrev pub spot_call : SpotCall W → SpotParams W → SpotParams W
  spot_call SpotCall.reset p = fresh_spot Side.buy OrderType.market
  spot_call (SpotCall.symbol x) p = record p { symbol = x }
  spot_call (SpotCall.side x) p = record p { side = x }
  spot_call (SpotCall.price x) p = record p { price = x }
  spot_call (SpotCall.stop_price x) p = record p { stop_price = x }
  spot_call (SpotCall.stop_limit_price x) p = record p { stop_limit_price = x }
  spot_call (SpotCall.quantity x) p = record p { quantity = x }
  spot_call (SpotCall.type x) p = record p { type = x }
  spot_call (SpotCall.new_client_order_id x) p = record p { new_client_order_id = x }
  spot_call (SpotCall.time_in_force x) p = record p { time_in_force = x }
  spot_call (SpotCall.stop_limit_time_in_force x) p = record p { stop_limit_time_in_force = x }
  spot_call (SpotCall.timestamp x) p = record p { timestamp = x }
  spot_call (SpotCall.quote_order_qty x) p = record p { quote_quantity = x }

  -- The calls in their order, and `build()`.
  pub build_spot : List (SpotCall W) → SpotParams W → SpotParams W
  build_spot [] p = p
  build_spot (c ∷ calls) p = build_spot calls (spot_call c p)

  -- One call on the builder.
  abbrev pub futures_call : FuturesCall W → FuturesParams W → FuturesParams W
  futures_call FuturesCall.reset p = fresh_futures Side.buy OrderType.market
  futures_call (FuturesCall.symbol x) p = record p { symbol = x }
  futures_call (FuturesCall.side x) p = record p { side = x }
  futures_call (FuturesCall.price x) p = record p { price = x }
  futures_call (FuturesCall.quantity x) p = record p { quantity = x }
  futures_call (FuturesCall.type x) p = record p { type = x }
  futures_call (FuturesCall.new_client_order_id x) p = record p { new_client_order_id = x }
  futures_call (FuturesCall.time_in_force x) p = record p { time_in_force = x }
  futures_call (FuturesCall.timestamp x) p = record p { timestamp = x }
  futures_call (FuturesCall.reduce_only x) p = record p { reduce_only = x }
  futures_call (FuturesCall.position_side x) p = record p { position_side = x }

  -- The calls in their order, and `build()`.
  pub build_futures : List (FuturesCall W) → FuturesParams W → FuturesParams W
  build_futures [] p = p
  build_futures (c ∷ calls) p = build_futures calls (futures_call c p)
