-- ===== src/Binance/Query/Futures.antt =====
-- The futures query says what its specification lists, and is taken apart into that.
use crypto_con.Base.{
  ◌<◌, ◌^◌, Bytes, codes, ◌++◌, append-nil, append_assoc, ◌≡◌, map, not, ◌&&◌, ltb, ◌==◌, Lacks,
  inl, inr, Bool-cases,
}
use crypto_con.Types.{
  Side, TimeInForce, OrderType, FuturesParams, time_in_force_code, order_type_code, side_code,
}
use crypto_con.Utils.Double.{Double, PrintsDoubles}
use crypto_con.Utils.Number.Decimal.{append_number-eq}
use crypto_con.Binance.Query.{
  add_time_in_force_futures, add_reduce_only, add_position_side, add_own_timestamp,
  build_query_futures,
}
use crypto_con.Binance.Query.Render.{
  segments, segments-append, render, parse_query, parse_query-render,
}
use crypto_con.Binance.Query.Decode.{decoded, read_query, read_query-render}
use crypto_con.Binance.Query.Plain.{futures-IsPlain}
use crypto_con.Binance.Query.Spec.{
  time_in_force_flag, reduce_only_flag, position_side_flag, time_flag, futures_parameters,
}
use crypto_con.Binance.Query.Spot.{add_text-eq, add_positive-eq}

module _ {W : Type 0} ⦃d : Double W⦄ (p : FuturesParams W) where
  add_time_in_force-eq :
      (query : Bytes) → add_time_in_force_futures p query ≡ query ++ segments (time_in_force_flag p)
  add_time_in_force-eq query =
      elim (Bool-cases (
        not (time_in_force_code p.time_in_force == time_in_force_code TimeInForce.gtc)
        && not (order_type_code p.type == order_type_code OrderType.market))) [
          | inl sent ↦ rw sent (simp (add_text-eq, append-nil))
          | inr left_out ↦ rw left_out (simp append-nil)
        ]

  add_reduce_only-eq :
      (query : Bytes) → add_reduce_only p query ≡ query ++ segments (reduce_only_flag p)
  add_reduce_only-eq query = elim (Bool-cases p.reduce_only) [
    | inl sent ↦ rw sent (simp append-nil)
    | inr left_out ↦ rw left_out (simp append-nil)
  ]

  add_position_side-eq :
      (query : Bytes) → add_position_side p query ≡ query ++ segments (position_side_flag p)
  add_position_side-eq query =
      elim (Bool-cases (not (side_code p.position_side == side_code Side.none))) [
        | inl sent ↦ rw sent (simp (add_text-eq, append-nil))
        | inr left_out ↦ rw left_out (simp append-nil)
      ]

  add_own_timestamp-eq :
      (query : Bytes)
      → p.timestamp < 2 ^ 64
      → add_own_timestamp p query ≡ query ++ segments (time_flag p)
  add_own_timestamp-eq query h = elim (Bool-cases (ltb 0 p.timestamp)) [
    | inl sent ↦ rw (sent, append_number-eq _ _ h) (simp (append-nil, append_assoc))
    | inr left_out ↦ rw left_out (simp append-nil)
  ]

  whole_text :
      PrintsDoubles W → p.timestamp < 2 ^ 64 → build_query_futures p ≡ render (futures_parameters p)
  unfolding build_query_futures
  whole_text prints bound =
      rw
        (
          add_own_timestamp-eq _ bound,
          add_position_side-eq,
          add_reduce_only-eq,
          add_time_in_force-eq,
          add_positive-eq prints (codes "price"),
          add_positive-eq prints (codes "quantity"),
        )
        (simp (segments-append, append_assoc))

  -- From a futures order whose time has 64 bits and whose symbol holds no `&`, `buildQuery` makes
  -- the query string of exactly the specified parameters, without URL encoding: split at `&` and `=`,
  -- it gives that list, and read URL-decoded, that list decoded. A positive price is among them for
  -- every type of order.
  -- A `double` is printed as a numeral that fits its buffer.
  pub build_query_futures-render :
      PrintsDoubles W
      → p.timestamp < 2 ^ 64
      → Lacks b'&' p.symbol
      → (build_query_futures p ≡ render (futures_parameters p))
        × (parse_query (build_query_futures p) ≡ futures_parameters p)
        × (read_query (build_query_futures p) ≡ map decoded (futures_parameters p))
  build_query_futures-render prints bound symbol =
      let whole = whole_text prints bound in
      (
        whole,
        rw whole (parse_query-render _ (futures-IsPlain prints p symbol)),
        rw whole (read_query-render (futures_parameters p) (futures-IsPlain prints p symbol)),
      )
