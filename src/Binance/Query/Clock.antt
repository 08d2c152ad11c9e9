-- ===== src/Binance/Query/Clock.antt =====
-- What building a query changes: at most, the clock is read once.
use crypto_con.Base.{◌+◌, Bytes, Option, none, some, ◌⊎◌, inl, inr, ◌≡◌, refl, Bool-cases, ltb}
use crypto_con.Types.{SpotParams}
use crypto_con.Utils.Double.{Double}
use crypto_con.World.{World, Env}
use crypto_con.Binance.Query.{add_timestamp, build_query_spot}

abbrev pub ReadsClock : World → World → Type 0
ReadsClock w w' = (w' ≡ w) ⊎ (w' ≡ record w { clock_reads = w.clock_reads + 1 })

module _ {W : Type 0} ⦃d : Double W⦄ (p : SpotParams W) (env : Env) where
  add_timestamp-ReadsClock :
      (query : Option Bytes) (w : World) → ReadsClock w (add_timestamp p env query w).1
  unfolding add_timestamp
  add_timestamp-ReadsClock none w = inl refl
  add_timestamp-ReadsClock (some query) w = elim (Bool-cases (ltb 0 p.timestamp)) [
    | inl given ↦ rw given (inl refl)
    | inr missing ↦ rw missing (inr refl)
  ]

  pub build_query_spot-ReadsClock : (w : World) → ReadsClock w (build_query_spot p env w).1
  unfolding build_query_spot
  build_query_spot-ReadsClock w = add_timestamp-ReadsClock _ w
