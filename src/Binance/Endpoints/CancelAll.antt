-- ===== src/Binance/Endpoints/CancelAll.antt =====
-- `cancelAllOpenOrders`: what is cancelled, and what happens at an order that cannot be read.
use crypto_con.Base.{
  ℕ, ◌<◌, ◌^◌, Bytes, codes, List, [], ◌∷◌, ◌++◌, ◌≡◌, refl, ap, ◌∙◌, Option, none, some, ◌⊎◌, inl,
  inr, All,
}
use crypto_con.Types.{TokenPair}
use crypto_con.Types.StdMap.{find, text_key, token_pair_key}
use crypto_con.Types.Tables.Binance
use crypto_con.World.{World, Env, OrderView, Request, get}
use crypto_con.Exec.{Outcome, ok, throw, Exn, simdjson_error, undefined, dummy, ◌>>=◌}
use crypto_con.Rest.{http_get, exchange, request_empty}
use crypto_con.Rest.Exchange.{Connects, exchange-Exchanged, exchange-SameOutside}
use crypto_con.Binance.Endpoints.{
  signed_target, api_key_header, cancel_order, cancel_one, cancel_each, rethrow, json_value,
  timed_query, get_open_orders, cancel_all_open_orders,
}
use crypto_con.Binance.Endpoints.Signed.{now}
use crypto_con.Binance.Endpoints.CancelOne.{
  KnowsSymbols, Cancelled, ticked, cancel_state, cancel_ok,
}

abbrev read_id : Bytes → Option TokenPair → ℕ ⊎ ℕ → Exn ⊎ (Bytes × ℕ)
read_id name none order_id = inl undefined
read_id name (some p) (inl code) = inl (simdjson_error code)
read_id name (some p) (inr order_id) = inr (name, order_id)

abbrev read_symbol : ℕ ⊎ Bytes → ℕ ⊎ ℕ → Exn ⊎ (Bytes × ℕ)
read_symbol (inl code) order_id = inl (simdjson_error code)
read_symbol (inr name) order_id = read_id name (find name Binance.string_to_token_pair) order_id

-- The symbol and the id of an order, or what reading them comes to.
abbrev pub read_order : OrderView → Exn ⊎ (Bytes × ℕ)
read_order order = read_symbol order.symbol order.order_id

abbrev IsWord : ℕ ⊎ ℕ → Type 0
IsWord (inl code) = Unit
IsWord (inr order_id) = order_id < 2 ^ 64

-- The ids are `uint64_t`.
abbrev pub AreWords : List OrderView → Type 0
AreWords = All (λ order. IsWord order.order_id)

abbrev pub CancelStep :
    Env → Exn ⊎ (Bytes × ℕ) → (World → Type 0) → World → Outcome (Unit {0}) × World → Type 0
CancelStep env (inl e) rest w (r, w') = (r ≡ throw e) × (w' ≡ w)
CancelStep env (inr (name, order_id)) rest w r =
    (next : World) × Cancelled env name order_id w next × rest next

-- The orders are cancelled one after the other, until the list ends or one cannot be read, whose
-- exception then ends the loop.
abbrev pub CancelRun : Env → List OrderView → World → Outcome (Unit {0}) × World → Type 0
CancelRun env [] w (r, w') = (r ≡ ok tt) × (w' ≡ w)
CancelRun env (order ∷ orders) w r =
    CancelStep env (read_order order) (λ next. CancelRun env orders next r) w r

module _ (env : Env) (order : OrderView) (orders : List OrderView) (w : World) where
  cancel_one_known :
      (name : Bytes) (p : TokenPair) (order_id : ℕ)
      → order.symbol ≡ inr name
      → find name Binance.string_to_token_pair ≡ some p
      → order.order_id ≡ inr order_id
      → cancel_one env order w ≡ cancel_order env p order_id dummy w
  cancel_one_known name p order_id e found f = rw (e, found, f) refl

  cancel_next :
      (body : Bytes) (next : World)
      → cancel_one env order w ≡ (ok body, next)
      → cancel_each env (order ∷ orders) w ≡ cancel_each env orders next
  unfolding cancel_each
  cancel_next body next h = rw h refl

  cancel_stops :
      (e : Exn)
      → cancel_one env order w ≡ (throw e, w)
      → cancel_each env (order ∷ orders) w ≡ (throw e, w)
  unfolding cancel_each
  cancel_stops e h = rw h refl

module _ (env : Env) (connects : (n : ℕ) → Connects env.network n) (order : OrderView)
    (orders : List OrderView) (w : World) where
  abbrev Step : Exn ⊎ (Bytes × ℕ) → Type 0
  Step r =
      CancelStep env r (λ next. CancelRun env orders next (cancel_each env (order ∷ orders) w)) w
        (cancel_each env (order ∷ orders) w)

  stop : (e : Exn) → cancel_one env order w ≡ (throw e, w) → Step (inl e)
  stop e h = rw (cancel_stops env order orders w e h) (refl, refl)

  module _ (k : KnowsSymbols w.binance_pairs)
      (rest : (next : World)
        → KnowsSymbols next.binance_pairs
        → CancelRun env orders next (cancel_each env orders next))
      (name : Bytes) (e : order.symbol ≡ inr name) where
    cancel_known-Step :
        (p : TokenPair) (order_id : ℕ)
        → find name Binance.string_to_token_pair ≡ some p
        → order.order_id ≡ inr order_id
        → order_id < 2 ^ 64
        → Step (inr (name, order_id))
    cancel_known-Step p order_id found f bound =
        let next = (cancel_order env p order_id dummy w).1 in
        let state = cancel_state env name p order_id w found k bound in
        let (body, good) = cancel_ok env name p order_id w found k connects in
        let run : cancel_one env order w ≡ (ok body, next) =
          cancel_one_known env order orders w name p order_id e found f
          ∙ ap (λ r. (r, next)) good in
        (next, state, rw (cancel_next env order orders w body next run) (rest next state.symbols))

    cancel_found-Step :
        (p : Option TokenPair) (order_id : ℕ ⊎ ℕ)
        → find name Binance.string_to_token_pair ≡ p
        → order.order_id ≡ order_id
        → IsWord order_id
        → Step (read_id name p order_id)
    cancel_found-Step none order_id found f word = stop undefined (rw (e, found) refl)
    cancel_found-Step (some p) (inl code) found f word =
        stop (simdjson_error code) (rw (e, found, f) refl)
    cancel_found-Step (some p) (inr order_id) found f word =
        cancel_known-Step p order_id found f word

  cancel-Step :
      (symbol : ℕ ⊎ Bytes)
      → order.symbol ≡ symbol
      → IsWord order.order_id
      → KnowsSymbols w.binance_pairs
      → ((next : World)
          → KnowsSymbols next.binance_pairs
          → CancelRun env orders next (cancel_each env orders next))
      → Step (read_symbol symbol order.order_id)
  cancel-Step (inl code) e word k rest = stop (simdjson_error code) (rw e refl)
  cancel-Step (inr name) e word k rest =
      cancel_found-Step k rest name e (find name Binance.string_to_token_pair) order.order_id refl
        refl word

module _ (env : Env) (connects : (n : ℕ) → Connects env.network n) where
  pub cancel_each-CancelRun :
      (orders : List OrderView) (w : World)
      → AreWords orders
      → KnowsSymbols w.binance_pairs
      → CancelRun env orders w (cancel_each env orders w)
  unfolding cancel_each
  cancel_each-CancelRun [] w words k = (refl, refl)
  cancel_each-CancelRun (order ∷ orders) w (word, words) k =
      cancel-Step env connects order orders w order.symbol refl word k
        (λ next known. cancel_each-CancelRun orders next words known)

-- The ids that are read from an answer have 64 bits.
abbrev pub AnswersWords : ℕ ⊎ List OrderView → Type 0
AnswersWords (inl code) = Unit
AnswersWords (inr orders) = AreWords orders

abbrev failure : Bytes
failure = codes "Failed to cancel orders"

-- What `cancelAllOpenOrders` does when it has parsed the answer in the state `w`.
abbrev pub Swept : Env → ℕ ⊎ List OrderView → World → Outcome (Unit {0}) × World → Type 0
Swept env (inl code) w r =
    r ≡ (throw (simdjson_error code), record w { log = w.log ++ failure ∷ [] })
Swept env (inr orders) w r =
    (run : Outcome (Unit {0}) × World) × CancelRun env orders w run × (r ≡ rethrow failure run)

module _ (env : Env) (connects : (n : ℕ) → Connects env.network n) (w : World) where
  abbrev open_orders_request : Request
  open_orders_request =
      request_empty get
        (signed_target env.digest w.secret_key (codes "/api/v3/openOrders")
          (timed_query (now env w)))
        (api_key_header w) w

  open_orders :
      (body : Bytes) × (opened : World) × (get_open_orders env w ≡ (ok body, opened))
      × (opened.binance_pairs ≡ w.binance_pairs)
  unfolding get_open_orders http_get
  open_orders =
      let good =
        exchange-Exchanged env open_orders_request dummy (ticked env w) (connects _) (connects _) in
      let same = exchange-SameOutside env open_orders_request dummy (ticked env w) in
      let opened = (exchange env open_orders_request dummy (ticked env w)).1 in
      (_, opened, ap (λ (r : Outcome Bytes). (r, opened)) good.0, same.binance_pairs)

  sweep :
      (answer : ℕ ⊎ List OrderView) (opened : World)
      → AnswersWords answer
      → KnowsSymbols opened.binance_pairs
      → Swept env answer opened (rethrow failure ((json_value answer >>= cancel_each env) opened))
  sweep (inl code) opened words k = refl
  sweep (inr orders) opened words k = (
    cancel_each env orders opened,
    cancel_each-CancelRun env connects orders opened words k,
    refl,
  )

  -- `cancelAllOpenOrders`, if every connection succeeds, the symbol map has the exchange's two
  -- symbols and the ids have 64 bits: the open orders are read, and each is cancelled by a signed
  -- DELETE request for its own symbol and id, one after the other. An answer that is no array of orders,
  -- or an order that cannot be read, ends the call with that exception, with the later orders left
  -- open; a JSON exception is logged.
  pub cancel_all_open_orders-Swept :
      KnowsSymbols w.binance_pairs
      → ((text : Bytes) → AnswersWords (env.json.array text))
      → (body : Bytes) × (opened : World) × (get_open_orders env w ≡ (ok body, opened))
        × Swept env (env.json.array body) opened (cancel_all_open_orders env w)
  unfolding cancel_all_open_orders
  cancel_all_open_orders-Swept k words =
      let (body, opened, read, same) = open_orders in
      (body, opened, read, rw (read) (sweep (env.json.array body) opened (words body) (rw same k)))
