-- ===== src/Binance/Query/Spot.antt =====
-- The spot query says exactly what its specification lists, and is taken apart into that.
use mathlib.Core.Option
use crypto_con.Base.{
  ℕ, ◌+◌, ◌<◌, ◌^◌, ◌%◌, Bytes, codes, List, [], ◌∷◌, ◌++◌, append-nil, append_assoc, ◌≡◌, refl,
  map, Option, none, some, not, arith, ltb, if◌then◌else◌, is_empty, Lacks, inl, inr, Bool-cases,
}
use crypto_con.Types.{OrderType, SpotParams}
use crypto_con.Utils.Double.{Double, PrintsDoubles}
use crypto_con.Utils.Number.{decimal}
use crypto_con.Utils.Number.Decimal.{append_number-eq, append_double-eq}
use crypto_con.World.{World, Env}
use crypto_con.Exec.{Outcome, ok, throw, logic_error}
use crypto_con.Binance.Query.{
  add_text, add_double, add_positive, add_order, add_timestamp, add_client_order_id, spot_start,
  side_name, build_query_spot,
}
use crypto_con.Binance.Query.Render.{
  Parameter, segments, segments-append, render, parse_query, parse_query-render,
}
use crypto_con.Binance.Query.Decode.{decoded, read_query, read_query-render}
use crypto_con.Binance.Query.Plain.{AreAllPlain, order-IsPlain, spot-IsPlain}
use crypto_con.Binance.Query.Spec.{optional, positive, order_parameters, spot_parameters}

pub add_text-eq : (key v query : Bytes) → add_text key v query ≡ query ++ (key ++ v)
unfolding add_text
add_text-eq key v query = append_assoc query key v

module _ {W : Type 0} ⦃d : Double W⦄ (p : SpotParams W) where
  -- The time that the query carries, and the state once it has been read.
  abbrev pub order_time : Env → World → ℕ
  order_time env w = if ltb 0 p.timestamp then p.timestamp else env.clock w.clock_reads % 2 ^ 64

  abbrev pub after_time : World → World
  after_time w = if ltb 0 p.timestamp then w else record w { clock_reads = w.clock_reads + 1 }

  -- What a query call has done: the text that it returns parses as the specified parameters, and
  -- reads as these decoded.
  abbrev pub Says : Env → World → Option (List Parameter) → Outcome Bytes × World → Type 0
  Says env w none (r, w') = (r ≡ throw (logic_error (codes "Not implemented"))) × (w' ≡ w)
  Says env w (some ps) (r, w') =
      (r ≡ ok (render (spot_parameters p ps (order_time env w))))
      × (parse_query (render (spot_parameters p ps (order_time env w)))
          ≡ spot_parameters p ps (order_time env w))
      × (read_query (render (spot_parameters p ps (order_time env w)))
          ≡ map decoded (spot_parameters p ps (order_time env w)))
      × (w' ≡ after_time w)

module _ {W : Type 0} ⦃d : Double W⦄ (prints : PrintsDoubles W) where
  pub add_double-eq :
      (key query : Bytes) (x : W) → add_double key x query ≡ query ++ (key ++ d.to_chars x)
  unfolding add_double
  add_double-eq key query x = rw (append_double-eq prints, append_assoc)

  -- a number that is sent only if it is positive
  pub add_positive-eq :
      (k query : Bytes) (x : W)
      → add_positive (b'&' ∷ (k ++ b'=' ∷ [])) x query ≡ query ++ segments (positive k x)
  unfolding add_positive
  add_positive-eq k query x = elim (Bool-cases (d.gt x d.nought)) [
    | inl yes_ ↦ rw (yes_, add_double-eq, append-nil, append_assoc)
    | inr no_ ↦ rw (no_, append-nil)
  ]

  ruleset query_laws = (add_text-eq, add_double-eq, append-nil, append_assoc)

  module _ (p : SpotParams W) where
    add_order-eq :
        (t : OrderType) (query : Bytes)
        → add_order p t query ≡ Option.map (λ ps. query ++ segments ps) (order_parameters p t)
    unfolding add_order
    add_order-eq OrderType.limit query = simp query_laws
    add_order-eq OrderType.market query = elim (Bool-cases (d.gt p.quantity d.nought)) [
      | inl given ↦ rw given (simp query_laws)
      | inr missing ↦ rw missing (simp (query_laws, add_positive-eq (codes "quoteOrderQty")))
    ]
    add_order-eq OrderType.stop_loss query = simp (query_laws, add_positive-eq (codes "quantity"))
    add_order-eq OrderType.stop_loss_limit query =
        simp (query_laws, add_positive-eq (codes "quantity"))
    add_order-eq OrderType.take_profit query = simp (query_laws, add_positive-eq (codes "quantity"))
    add_order-eq OrderType.take_profit_limit query =
        simp (query_laws, add_positive-eq (codes "quantity"))
    add_order-eq OrderType.oco query = simp (query_laws, add_positive-eq (codes "quantity"))
    add_order-eq OrderType.limit_maker query = refl
    add_order-eq OrderType.cancel query = refl
    add_order-eq OrderType.unknown query = refl

    clock_bound : (env : Env) (w : World) → env.clock w.clock_reads % 2 ^ 64 < 2 ^ 64
    clock_bound env w = omega arith

    add_timestamp-some :
        (env : Env) (w : World) (query : Bytes)
        → p.timestamp < 2 ^ 64
        → add_timestamp p env (some query) w ≡ (
          ok (query ++ segments ((codes "timestamp", decimal (order_time p env w)) ∷ [])),
          after_time p w,
        )
    unfolding add_timestamp
    add_timestamp-some env w query h = elim (Bool-cases (ltb 0 p.timestamp)) [
      | inl given ↦ rw (given, append_number-eq _ _ h, append-nil) (simp append_assoc)
      | inr missing ↦
          rw (missing, append_number-eq _ _ (clock_bound env w), append-nil) (simp append_assoc)
    ]

    add_client_order_id-eq :
        (add_client_order_id p (spot_start p))
        ≡ render (
            (codes "symbol", p.symbol)
            ∷ (codes "side", side_name p.side)
            ∷ optional
                (not (is_empty p.new_client_order_id))
                (codes "newClientOrderId", p.new_client_order_id))
    add_client_order_id-eq = elim (Bool-cases (is_empty p.new_client_order_id)) [
      | inl e ↦ rw e (simp (append-nil, append_assoc))
      | inr e ↦ rw e (simp (add_text-eq, append-nil, append_assoc))
    ]

    finish :
        (env : Env) (w : World) (o : Option (List Parameter))
        → AreAllPlain prints o
        → p.timestamp < 2 ^ 64
        → Lacks b'&' p.symbol
        → Lacks b'&' p.new_client_order_id
        → Says p env w o (
            add_timestamp p env
              (Option.map (λ ps. add_client_order_id p (spot_start p) ++ segments ps) o)
              w)
    finish env w none plain bound symbol id = unfold add_timestamp in (refl, refl)
    finish env w (some ps) plain bound symbol id =
        rw (add_timestamp-some env w _ bound, add_client_order_id-eq)
          (
            simp (segments-append, append_assoc),
            parse_query-render _ (spot-IsPlain prints p ps _ plain symbol id),
            read_query-render (spot_parameters p ps (order_time p env w))
                (spot-IsPlain prints p ps _ plain symbol id),
            refl,
          )

    -- From a spot order of an implemented type, `buildQuery` makes the query string of exactly the
    -- specified parameters, without URL encoding; split at `&` and `=`, it gives that list, and read
    -- URL-decoded, that list decoded. The stop limit price and its time in force are among the
    -- parameters for OCO alone. The time is the order's own, or one reading of the clock if that is 0. For the other types it throws and changes nothing.
    -- The order's time has 64 bits, and the symbol and the client's order id hold no `&`. A
    -- `double` is printed as a numeral that fits its buffer.
    pub build_query_spot-Says :
        (env : Env) (w : World)
        → p.timestamp < 2 ^ 64
        → Lacks b'&' p.symbol
        → Lacks b'&' p.new_client_order_id
        → Says p env w (order_parameters p p.type) (build_query_spot p env w)
    unfolding build_query_spot
    build_query_spot-Says env w bound symbol id =
        rw add_order-eq
          (finish env w (order_parameters p p.type) (order-IsPlain prints p p.type) bound symbol id)
