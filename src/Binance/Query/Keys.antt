-- ===== src/Binance/Query/Keys.antt =====
-- No query names a parameter twice, and what a server finds under the keys that depend on the order.
use crypto_con.Base.{
  ℕ, Bytes, codes, List, [], ◌∷◌, ◌++◌, ◌≡◌, ◌≢◌, refl, Bool, true, false, not, ◌&&◌, ◌||◌, arith,
  is_empty, text_eq, text_eq_iff, if◌then◌else◌, All, Lacks, Option, none, some, ◌<◌, ◌^◌, ◌∙◌, ap,
  subst,
}
use crypto_con.World.{World, Env}
use crypto_con.Exec.{Outcome, ok}
use crypto_con.Types.{OrderType, SpotParams, FuturesParams}
use crypto_con.Types.StdMap.{find, text_key}
use crypto_con.Utils.Double.{Double, PrintsDoubles}
use crypto_con.Utils.Number.{decimal}
use crypto_con.Binance.Query.{build_query_spot, build_query_futures}
use crypto_con.Binance.Query.Render.{Parameter, render, parse_query}
use crypto_con.Binance.Query.Spot.{Says, order_time, build_query_spot-Says}
use crypto_con.Binance.Query.Futures.{build_query_futures-render}
use crypto_con.Binance.Query.Spec.{
  optional, amount, type_parameter, order_parameters, spot_parameters, futures_parameters,
}

-- The test that no key of the list stands in it twice.
abbrev among : Bytes → List Parameter → Bool
among k [] = false
among k ((j, v) ∷ ps) = text_eq k j || among k ps

abbrev distinct : List Parameter → Bool
distinct [] = true
distinct ((k, v) ∷ ps) = not (among k ps) && distinct ps

module _ {W : Type 0} ⦃d : Double W⦄ where
  spot_distinct :
      (p : SpotParams W) (t : OrderType) (ps : List Parameter) (time : ℕ)
      → order_parameters p t ≡ some ps
      → distinct (spot_parameters p ps time) ≡ true
  spot_distinct p OrderType.limit ps time h = ground arith
  spot_distinct p _ ps time h = ground arith

  futures_distinct : (p : FuturesParams W) → distinct (futures_parameters p) ≡ true
  futures_distinct p = ground arith

-- No key of the list stands in it twice.
abbrev pub AreKeysDistinct : List Parameter → Type 0
AreKeysDistinct [] = Unit
AreKeysDistinct ((k, v) ∷ ps) = All (λ q. k ≢ q.0) ps × AreKeysDistinct ps

among_sound : (k : Bytes) (ps : List Parameter) → among k ps ≡ false → All (λ q. k ≢ q.0) ps
among_sound k [] h = tt
among_sound k ((j, v) ∷ ps) h =
    (λ e. ground (arith, text_eq_iff k j), among_sound k ps (ground arith))

distinct_sound : (ps : List Parameter) → distinct ps ≡ true → AreKeysDistinct ps
distinct_sound [] h = tt
distinct_sound ((k, v) ∷ ps) h = (among_sound k ps (ground arith), distinct_sound ps (ground arith))

-- Looking a key up past a parameter that may be left out.
module _ (k j v : Bytes) (b : Bool) where
  pub find-skip :
      (ps : List Parameter) → text_eq k j ≡ false → find k (optional b (j, v) ++ ps) ≡ find k ps
  find-skip ps h = ground arith

  pub find-skip_last : text_eq k j ≡ false → find k (optional b (j, v)) ≡ none
  find-skip_last h = ground arith

  pub find-take :
      (ps : List Parameter)
      → text_eq k j ≡ true
      → find k (optional b (j, v) ++ ps) ≡ (if b then some v else find k ps)
  find-take ps h = ground arith

  pub find-take_last :
      text_eq k j ≡ true → find k (optional b (j, v)) ≡ (if b then some v else none)
  find-take_last h = ground arith

module _ {W : Type 0} ⦃d : Double W⦄ where
  spot_keys :
      (p : SpotParams W) (t : OrderType) (ps : List Parameter) (time : ℕ)
      → order_parameters p t ≡ some ps
      → AreKeysDistinct (spot_parameters p ps time)
  spot_keys p t ps time h = distinct_sound (spot_parameters p ps time) (spot_distinct p t ps time h)

  futures_keys : (q : FuturesParams W) → AreKeysDistinct (futures_parameters q)
  futures_keys q = distinct_sound (futures_parameters q) (futures_distinct q)

  module _ (p : SpotParams W) (time : ℕ) where
    abbrev at_time : List Parameter
    at_time = (codes "timestamp", decimal time) ∷ []

    abbrev market_parameters : List Parameter
    market_parameters = spot_parameters p (type_parameter p ∷ amount p) time

    skip_id :
        (k : Bytes)
        → text_eq k (codes "newClientOrderId") ≡ false
        → find k (
            optional
              (not (is_empty p.new_client_order_id))
              (codes "newClientOrderId", p.new_client_order_id)
            ++ ((type_parameter p ∷ amount p) ++ at_time))
          ≡ find k ((type_parameter p ∷ amount p) ++ at_time)
    skip_id k =
        find-skip k (codes "newClientOrderId") p.new_client_order_id
          (not (is_empty p.new_client_order_id)) ((type_parameter p ∷ amount p) ++ at_time)

    amount_quantity :
        find (codes "quantity") (amount p ++ at_time)
        ≡ (if d.gt p.quantity d.nought then some (d.to_chars p.quantity) else none)
    amount_quantity = ground arith

    amount_quote : find (codes "quoteOrderQty") (amount p ++ at_time) ≡ (
        if d.gt p.quantity d.nought
        then none
        else if d.gt p.quote_quantity d.nought
        then some (d.to_chars p.quote_quantity)
        else none)
    amount_quote = ground arith

    market_quantity :
        find (codes "quantity") market_parameters
        ≡ (if d.gt p.quantity d.nought then some (d.to_chars p.quantity) else none)
    market_quantity = skip_id (codes "quantity") refl ∙ amount_quantity

    market_quote : find (codes "quoteOrderQty") market_parameters ≡ (
        if d.gt p.quantity d.nought
        then none
        else if d.gt p.quote_quantity d.nought
        then some (d.to_chars p.quote_quantity)
        else none)
    market_quote = skip_id (codes "quoteOrderQty") refl ∙ amount_quote

module _ {W : Type 0} ⦃d : Double W⦄ (prints : PrintsDoubles W) where
  returned :
      (p : SpotParams W) (env : Env) (w : World) (text : Bytes) (o : Option (List Parameter))
      (r : Outcome Bytes × World)
      → Says p env w o r
      → r.0 ≡ ok text
      → (ps : List Parameter) × (o ≡ some ps)
        × (parse_query text ≡ spot_parameters p ps (order_time p env w))
  returned p env w text none r says h = cc
  returned p env w text (some ps) r says h =
      let e : text ≡ render (spot_parameters p ps (order_time p env w)) = cc in
      (ps, refl, rw e says.1)

  -- A server that reads the query of a futures order, or of a spot order of an implemented type,
  -- finds no key twice. The orders' times have 64 bits, and their texts hold no `&`. A `double` is
  -- printed as a numeral that fits its buffer.
  pub query_keys_distinct :
      (env : Env) (w : World) (p : SpotParams W) (q : FuturesParams W) {text : Bytes}
      → p.timestamp < 2 ^ 64
      → q.timestamp < 2 ^ 64
      → Lacks b'&' p.symbol
      → Lacks b'&' q.symbol
      → Lacks b'&' p.new_client_order_id
      → (build_query_spot p env w).0 ≡ ok text
      → AreKeysDistinct (parse_query text) × AreKeysDistinct (parse_query (build_query_futures q))
  query_keys_distinct env w p q {text} bound bound' symbol symbol' id h =
      let says = build_query_spot-Says prints p env w bound symbol id in
      let (ps, e, parsed) = returned p env w text _ _ says h in
      (
        rw parsed (spot_keys p p.type ps (order_time p env w) e),
        rw (build_query_futures-render q prints bound' symbol').1 (futures_keys q),
      )

  -- A server that reads a market order's query finds the quantity exactly if it is positive, and the
  -- quote quantity exactly if it is positive and the quantity is not: never both.
  market_amounts :
      (env : Env) (w : World) (p : SpotParams W)
      → p.type ≡ OrderType.market
      → p.timestamp < 2 ^ 64
      → Lacks b'&' p.symbol
      → Lacks b'&' p.new_client_order_id
      → (text : Bytes) × ((build_query_spot p env w).0 ≡ ok text)
        × (find (codes "quantity") (parse_query text)
            ≡ (if d.gt p.quantity d.nought then some (d.to_chars p.quantity) else none))
        × (find (codes "quoteOrderQty") (parse_query text) ≡ (
            if d.gt p.quantity d.nought
            then none
            else if d.gt p.quote_quantity d.nought
            then some (d.to_chars p.quote_quantity)
            else none))
  market_amounts env w p market bound symbol id =
      let says = build_query_spot-Says prints p env w bound symbol id in
      let ps : List Parameter = type_parameter p ∷ amount p in
      let said : Says p env w (some ps) (build_query_spot p env w) =
        subst (λ o. Says p env w o (build_query_spot p env w)) (ap (order_parameters p) market)
          says in
      let time = order_time p env w in
      (
        render (spot_parameters p ps time),
        said.0,
        rw said.1 (market_quantity p time),
        rw said.1 (market_quote p time),
      )
