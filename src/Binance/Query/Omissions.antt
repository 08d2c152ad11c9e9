-- ===== src/Binance/Query/Omissions.antt =====
-- What a server finds in the query of a futures order under the keys that may be left out.
use crypto_con.Base.{
  ◌<◌, ◌^◌, Bytes, codes, List, ◌++◌, ◌≡◌, refl, ◌∙◌, ap, Bool, not, ◌&&◌, none, some, ltb, ◌==◌,
  if◌then◌else◌, text_eq, false, Lacks,
}
use crypto_con.Types.{Side, FuturesParams, time_in_force_code, order_type_code, side_code}
use crypto_con.Types.StdMap.{find, text_key}
use crypto_con.Utils.Double.{Double, PrintsDoubles}
use crypto_con.Utils.Number.{decimal}
use crypto_con.Binance.Query.{build_query_futures, side_name, time_in_force_name}
use crypto_con.Binance.Query.Render.{Parameter, parse_query}
use crypto_con.Binance.Query.Spec.{
  positive, time_in_force_flag, reduce_only_flag, position_side_flag, time_flag,
}
use crypto_con.Binance.Query.Futures.{build_query_futures-render}
use crypto_con.Binance.Query.Keys.{find-skip, find-skip_last, find-take, find-take_last}

module _ {W : Type 0} ⦃d : Double W⦄ (q : FuturesParams W) where
  abbrev flags : List Parameter
  flags = time_in_force_flag q ++ (reduce_only_flag q ++ (position_side_flag q ++ time_flag q))

  -- no amount, no price
  skip_numbers :
      (k : Bytes)
      → text_eq k (codes "quantity") ≡ false
      → text_eq k (codes "price") ≡ false
      → find k
          (positive (codes "quantity") q.quantity ++ (positive (codes "price") q.price ++ flags))
        ≡ find k flags
  skip_numbers k h h' =
      find-skip k (codes "quantity") (d.to_chars q.quantity) (d.gt q.quantity d.nought)
        (positive (codes "price") q.price ++ flags) h
      ∙ find-skip k (codes "price") (d.to_chars q.price) (d.gt q.price d.nought) flags h'

  abbrev pub in_force : Bool
  in_force = not (time_in_force_code q.time_in_force == 0) && not (order_type_code q.type == 0)

  skip_flags :
      (k : Bytes)
      → text_eq k (codes "reduceOnly") ≡ false
      → text_eq k (codes "positionSide") ≡ false
      → find k (reduce_only_flag q ++ (position_side_flag q ++ time_flag q)) ≡ find k (time_flag q)
  skip_flags k h h' =
      find-skip k (codes "reduceOnly") (codes "true") q.reduce_only
        (position_side_flag q ++ time_flag q) h
      ∙ find-skip k (codes "positionSide") (side_name q.position_side)
          (not (side_code q.position_side == side_code Side.none)) (time_flag q) h'

  skip_time_in_force :
      (k : Bytes)
      → text_eq k (codes "timeInForce") ≡ false
      → find k flags ≡ find k (reduce_only_flag q ++ (position_side_flag q ++ time_flag q))
  skip_time_in_force k =
      find-skip k (codes "timeInForce") (time_in_force_name q.time_in_force) in_force
        (reduce_only_flag q ++ (position_side_flag q ++ time_flag q))

  find_timestamp :
      find (codes "timestamp") flags
      ≡ (if ltb 0 q.timestamp then some (decimal q.timestamp) else none)
  find_timestamp =
      skip_time_in_force (codes "timestamp") refl
      ∙ (skip_flags (codes "timestamp") refl refl
          ∙ find-take_last (codes "timestamp") (codes "timestamp") (decimal q.timestamp)
              (ltb 0 q.timestamp) refl)

  find_client_order_id : find (codes "newClientOrderId") flags ≡ none
  find_client_order_id =
      skip_time_in_force (codes "newClientOrderId") refl
      ∙ (skip_flags (codes "newClientOrderId") refl refl
          ∙ find-skip_last (codes "newClientOrderId") (codes "timestamp") (decimal q.timestamp)
              (ltb 0 q.timestamp) refl)

  no_more_time_in_force :
      find (codes "timeInForce") (reduce_only_flag q ++ (position_side_flag q ++ time_flag q))
      ≡ none
  no_more_time_in_force =
      skip_flags (codes "timeInForce") refl refl
      ∙ find-skip_last (codes "timeInForce") (codes "timestamp") (decimal q.timestamp)
          (ltb 0 q.timestamp) refl

  find_time_in_force :
      find (codes "timeInForce") flags
      ≡ (if in_force then some (time_in_force_name q.time_in_force) else none)
  find_time_in_force =
      find-take (codes "timeInForce") (codes "timeInForce") (time_in_force_name q.time_in_force)
        in_force (reduce_only_flag q ++ (position_side_flag q ++ time_flag q)) refl
      ∙ ap (λ o. if in_force then some (time_in_force_name q.time_in_force) else o)
          no_more_time_in_force

  -- What a server finds in a futures order's query: the order's time only if that is not 0 (the
  -- clock is never read), a time in force only if it is not GTC and the order no market order, and
  -- never the client's order id. The order's time has 64 bits, and its symbol holds no `&`. A
  -- `double` is printed as a numeral that fits its buffer.
  pub futures_omissions :
      PrintsDoubles W
      → q.timestamp < 2 ^ 64
      → Lacks b'&' q.symbol
      → let sent = parse_query (build_query_futures q) in
        (find (codes "timestamp") sent
          ≡ (if ltb 0 q.timestamp then some (decimal q.timestamp) else none))
        × (find (codes "timeInForce") sent
            ≡ (if in_force then some (time_in_force_name q.time_in_force) else none))
        × (find (codes "newClientOrderId") sent ≡ none)
  futures_omissions prints bound symbol = rw (build_query_futures-render q prints bound symbol).1 (
    skip_numbers (codes "timestamp") refl refl ∙ find_timestamp,
    skip_numbers (codes "timeInForce") refl refl ∙ find_time_in_force,
    skip_numbers (codes "newClientOrderId") refl refl ∙ find_client_order_id,
  )
