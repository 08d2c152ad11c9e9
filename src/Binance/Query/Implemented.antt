-- ===== src/Binance/Query/Implemented.antt =====
-- The order types for which `buildQuery` of a spot order has a case.
use crypto_con.Base.{◌+◌, Bytes, Bool, true, false, some, inl, inr, ◌≡◌, refl, ltb, Bool-cases}
use crypto_con.Types.{OrderType, SpotParams}
use crypto_con.Utils.Double.{Double}
use crypto_con.World.{World, Env}
use crypto_con.Exec.{Outcome, ok, throw, logic_error}
use crypto_con.Binance.Query.{build_query_spot, add_timestamp, add_order}

abbrev pub is_implemented : OrderType → Bool
is_implemented OrderType.limit_maker = false
is_implemented OrderType.cancel = false
is_implemented OrderType.unknown = false
is_implemented t = true

module _ {W : Type 0} ⦃d : Double W⦄ (p : SpotParams W) (env : Env) where
  -- A query, and the requests as before; or an exception.
  abbrev pub Answers : Bool → World → Outcome Bytes × World → Type 0
  Answers true w r =
      (query : Bytes) × (v : World) × (r ≡ (ok query, v)) × (v.rest.requests ≡ w.rest.requests)
  Answers false w r = (m : Bytes) × (r ≡ (throw (logic_error m), w))

  add_timestamp-Answers :
      (query : Bytes) (w : World) → Answers true w (add_timestamp p env (some query) w)
  unfolding add_timestamp
  add_timestamp-Answers query w = elim (Bool-cases (ltb 0 p.timestamp)) [
    | inl given ↦ rw given (_, w, refl, refl)
    | inr missing ↦ rw missing (_, record w { clock_reads = w.clock_reads + 1 }, refl, refl)
  ]

  add_order-Answers :
      (t : OrderType) (query : Bytes) (w : World)
      → Answers (is_implemented t) w (add_timestamp p env (add_order p t query) w)
  unfolding add_order add_timestamp
  add_order-Answers OrderType.limit query w = add_timestamp-Answers _ w
  add_order-Answers OrderType.market query w = add_timestamp-Answers _ w
  add_order-Answers OrderType.stop_loss query w = add_timestamp-Answers _ w
  add_order-Answers OrderType.stop_loss_limit query w = add_timestamp-Answers _ w
  add_order-Answers OrderType.take_profit query w = add_timestamp-Answers _ w
  add_order-Answers OrderType.take_profit_limit query w = add_timestamp-Answers _ w
  add_order-Answers OrderType.oco query w = add_timestamp-Answers _ w
  add_order-Answers OrderType.limit_maker query w = (_, refl)
  add_order-Answers OrderType.cancel query w = (_, refl)
  add_order-Answers OrderType.unknown query w = (_, refl)

  pub build_query_spot-Answers :
      (w : World) → Answers (is_implemented p.type) w (build_query_spot p env w)
  unfolding build_query_spot
  build_query_spot-Answers w = add_order-Answers p.type _ w
