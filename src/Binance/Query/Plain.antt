-- ===== src/Binance/Query/Plain.antt =====
-- No parameter that the specification lists holds a separator, if the caller's texts hold none.
use crypto_con.Base.{
  ℕ, Bytes, codes, List, ◌++◌, ◌≢◌, Option, none, some, Bool, true, false, arith, All, All-append,
  All-imp, Lacks, Bool-cases, inl, inr,
}
use crypto_con.Types.{Side, TimeInForce, OrderType, SpotParams, FuturesParams}
use crypto_con.Utils.Double.{Double, PrintsDoubles, IsNumeral}
use crypto_con.Utils.Number.{decimal}
use crypto_con.Utils.Number.Decimal.{decimal-IsNumeral}
use crypto_con.Binance.Query.{side_name, time_in_force_name, order_type_name}
use crypto_con.Binance.Query.Render.{Parameter, IsPlain}
use crypto_con.Binance.Query.Spec.{
  optional, number, positive, amount, order_parameters, spot_parameters, futures_parameters,
  time_in_force_flag, reduce_only_flag, position_side_flag, time_flag,
}

side_name-Lacks : (s : Side) → Lacks b'&' (side_name s)
unfolding side_name
side_name-Lacks Side.buy = omega arith
side_name-Lacks _ = omega arith

time_in_force_name-Lacks : (t : TimeInForce) → Lacks b'&' (time_in_force_name t)
unfolding time_in_force_name
time_in_force_name-Lacks TimeInForce.gtc = omega arith
time_in_force_name-Lacks _ = omega arith

order_type_name-Lacks : (t : OrderType) → Lacks b'&' (order_type_name t)
unfolding order_type_name
order_type_name-Lacks OrderType.market = omega arith
order_type_name-Lacks _ = omega arith

pub numeral-Lacks : (s : Bytes) → All IsNumeral s → Lacks b'&' s
numeral-Lacks = All-imp IsNumeral (λ c. c ≢ b'&') (λ c h. h.0)

pub optional-IsPlain : (b : Bool) (p : Parameter) → IsPlain p → All IsPlain (optional b p)
optional-IsPlain true p h = (h, tt)
optional-IsPlain false p h = tt

time-IsPlain : (n : ℕ) → IsPlain (codes "timestamp", decimal n)
time-IsPlain n = (omega arith, numeral-Lacks _ (decimal-IsNumeral n))

module _ {W : Type 0} ⦃d : Double W⦄ (prints : PrintsDoubles W) where
  number-IsPlain : (key : Bytes) (x : W) → Lacks b'=' key → IsPlain (number key x)
  number-IsPlain key x h = (h, numeral-Lacks _ (prints.numeral x))

  positive-IsPlain : (key : Bytes) (x : W) → Lacks b'=' key → All IsPlain (positive key x)
  positive-IsPlain key x h = optional-IsPlain _ _ (number-IsPlain key x h)

  abbrev pub AreAllPlain : Option (List Parameter) → Type 0
  AreAllPlain none = Unit
  AreAllPlain (some ps) = All IsPlain ps

  module _ (p : SpotParams W) where
    type-IsPlain : IsPlain (codes "type", order_type_name p.type)
    type-IsPlain = (omega arith, order_type_name-Lacks p.type)

    time_in_force-IsPlain : IsPlain (codes "timeInForce", time_in_force_name p.time_in_force)
    time_in_force-IsPlain = (omega arith, time_in_force_name-Lacks p.time_in_force)

    price-IsPlain : IsPlain (number (codes "price") p.price)
    price-IsPlain = number-IsPlain (codes "price") _ (omega arith)

    stop_price-IsPlain : IsPlain (number (codes "stopPrice") p.stop_price)
    stop_price-IsPlain = number-IsPlain (codes "stopPrice") _ (omega arith)

    quantity-IsPlain : All IsPlain (positive (codes "quantity") p.quantity)
    quantity-IsPlain = positive-IsPlain (codes "quantity") _ (omega arith)

    amount-IsPlain : All IsPlain (amount p)
    amount-IsPlain = elim (Bool-cases (d.gt p.quantity d.nought)) [
      | inl given ↦ rw given (number-IsPlain (codes "quantity") _ (omega arith), tt)
      | inr missing ↦ rw missing (positive-IsPlain (codes "quoteOrderQty") _ (omega arith))
    ]

    pub order-IsPlain : (t : OrderType) → AreAllPlain (order_parameters p t)
    order-IsPlain OrderType.limit = (
      type-IsPlain,
      (
        time_in_force-IsPlain,
        (price-IsPlain, (number-IsPlain (codes "quantity") _ (omega arith), tt)),
      ),
    )
    order-IsPlain OrderType.market = (type-IsPlain, amount-IsPlain)
    order-IsPlain OrderType.stop_loss = (type-IsPlain, (stop_price-IsPlain, quantity-IsPlain))
    order-IsPlain OrderType.take_profit = (type-IsPlain, (stop_price-IsPlain, quantity-IsPlain))
    order-IsPlain OrderType.stop_loss_limit = (
      type-IsPlain,
      (stop_price-IsPlain, (price-IsPlain, (time_in_force-IsPlain, quantity-IsPlain))),
    )
    order-IsPlain OrderType.take_profit_limit = (
      type-IsPlain,
      (stop_price-IsPlain, (price-IsPlain, (time_in_force-IsPlain, quantity-IsPlain))),
    )
    order-IsPlain OrderType.oco = (
      price-IsPlain,
      (
        stop_price-IsPlain,
        (
          number-IsPlain (codes "stopLimitPrice") _ (omega arith),
          ((omega arith, time_in_force_name-Lacks p.stop_limit_time_in_force), quantity-IsPlain),
        ),
      ),
    )
    order-IsPlain _ = tt

    pub spot-IsPlain :
        (ps : List Parameter) (time : ℕ)
        → All IsPlain ps
        → Lacks b'&' p.symbol
        → Lacks b'&' p.new_client_order_id
        → All IsPlain (spot_parameters p ps time)
    spot-IsPlain ps time plain symbol id = (
      (omega arith, symbol),
      (
        (omega arith, side_name-Lacks p.side),
        All-append IsPlain _ _ (optional-IsPlain _ _ (omega arith, id))
            (All-append IsPlain ps _ plain (time-IsPlain time, tt)),
      ),
    )

  module _ (p : FuturesParams W) where
    flags-IsPlain :
        All IsPlain
          (time_in_force_flag p ++ (reduce_only_flag p ++ (position_side_flag p ++ time_flag p)))
    flags-IsPlain =
        All-append IsPlain (time_in_force_flag p) _
          (optional-IsPlain _ (codes "timeInForce", time_in_force_name p.time_in_force)
            (omega arith, time_in_force_name-Lacks p.time_in_force))
          (All-append IsPlain (reduce_only_flag p) _
            (optional-IsPlain _ (codes "reduceOnly", codes "true") (omega arith, omega arith))
            (All-append IsPlain (position_side_flag p) (time_flag p)
              (optional-IsPlain _ (codes "positionSide", side_name p.position_side)
                (omega arith, side_name-Lacks p.position_side))
              (optional-IsPlain _ _ (time-IsPlain p.timestamp))))

    pub futures-IsPlain : Lacks b'&' p.symbol → All IsPlain (futures_parameters p)
    futures-IsPlain symbol = (
      (omega arith, symbol),
      (
        (omega arith, side_name-Lacks p.side),
        (
          (omega arith, order_type_name-Lacks p.type),
          All-append IsPlain (positive (codes "quantity") p.quantity) _
              (positive-IsPlain (codes "quantity") _ (omega arith))
              (All-append IsPlain (positive (codes "price") p.price) _
                (positive-IsPlain (codes "price") _ (omega arith)) flags-IsPlain),
        ),
      ),
    )
