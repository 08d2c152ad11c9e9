-- ===== src/Binance/Endpoints/Signed.antt =====
-- What the exchange makes of the signed requests.
use crypto_con.Base.{
  ℕ, ◌%◌, ◌^◌, ◌<◌, Bytes, codes, List, suc, [], ◌∷◌, ◌++◌, append-nil, append_assoc, ◌≡◌, refl, ap,
  subst, ◌∙◌, none, some, arith, All, Lacks, Bool-cases, Option-cases, inl, inr, ◌==◌,
}
use crypto_con.Base.Int.{ℤ, pos, negsuc}
use crypto_con.Types.{TokenPair, token_pair_code}
use crypto_con.Types.StdMap.{index, find, token_pair_key}
use crypto_con.Types.Tables.Binance
use crypto_con.Utils.Number.{decimal, signed_decimal}
use crypto_con.Utils.Number.Decimal.{append_number-eq, decimal-IsNumeral}
use crypto_con.World.{World, Env, Request, Verb, get, post, delete}
use crypto_con.Exec.{Outcome, ErrorRef, dummy}
use crypto_con.Rest.{http_get, http_post, http_delete, request_empty, request_string}
use crypto_con.Rest.Exchange.{exchange_requests}
use crypto_con.Rest.Requests.{header}
use crypto_con.Binance.Query.Render.{Parameter, render}
use crypto_con.Binance.Query.Decode.{
  read_query, read_query-render, decoded_literal, IsLiteral, decimal-IsLiteral,
}
use crypto_con.Binance.Query.Plain.{numeral-Lacks}
use crypto_con.Binance.Endpoints.{
  binance_symbol, timed_query, api_key_header, signed_target, get_signed, cancel_query,
  leverage_query, get_account_info, get_open_orders, get_open_positions, cancel_order, set_leverage,
}
use crypto_con.Binance.Endpoints.Server.{receive, receive-signed_target}

-- Exactly one request was handed over; it has this verb and carries the API key, and the exchange
-- takes it for the endpoint with the parameters.
abbrev pub Receives :
    {A : Type 0} → Env → World → Verb → Bytes → List Parameter → Outcome A × World → Type 0
Receives env w verb endpoint ps (r, w') =
    (req : Request) × (w'.rest.requests ≡ w.rest.requests ++ req ∷ [])
    × (req.verb ≡ verb)
    × (receive env.digest w.secret_key req.target ≡ some (endpoint, ps))
    × (header (codes "X-MBX-APIKEY") none req.calls ≡ some w.api_key)

-- The clock's next reading.
abbrev pub now : Env → World → ℕ
now env w = env.clock w.clock_reads % 2 ^ 64

abbrev pub timed_parameters : ℕ → List Parameter
timed_parameters time = (codes "timestamp", decimal time) ∷ (codes "recvWindow", codes "5000") ∷ []

decimal-Lacks : (n : ℕ) → Lacks b'&' (decimal n)
decimal-Lacks n = numeral-Lacks _ (decimal-IsNumeral n)

parse_timed : (time : ℕ) → read_query (timed_query time) ≡ timed_parameters time
parse_timed time =
    ap read_query {x = timed_query time} {y = render (timed_parameters time)}
      (simp (append_assoc, append-nil))
    ∙ read_query-render (timed_parameters time)
        ((omega arith, decimal-Lacks time), ((omega arith, omega arith), tt))
    ∙ decoded_literal (timed_parameters time)
        ((omega arith, decimal-IsLiteral time), ((omega arith, omega arith), tt))

pub receive_parameters :
    (env : Env) (w : World) (endpoint query : Bytes) {ps : List Parameter}
    → Lacks b'?' endpoint
    → read_query query ≡ ps
    → receive env.digest w.secret_key (signed_target env.digest w.secret_key endpoint query)
      ≡ some (endpoint, ps)
receive_parameters env w endpoint query h parsed =
    receive-signed_target env.digest w.secret_key endpoint query h
    ∙ ap (λ l. some (endpoint, l)) parsed

module _ (env : Env) (w : World) where
  signed_get :
      (endpoint : Bytes)
      → Lacks b'?' endpoint
      → Receives env w get endpoint (timed_parameters (now env w)) (get_signed env endpoint w)
  unfolding http_get
  signed_get endpoint h = (
    request_empty get _ (api_key_header w) w,
    exchange_requests env _ dummy _,
    refl,
    receive_parameters env w endpoint (timed_query (now env w)) h (parse_timed (now env w)),
    refl,
  )

  -- Each of the signed reads hands over one GET request, which carries the API key; the exchange accepts
  -- its signature and finds the endpoint, the time of the call and the window of 5000. Open positions
  -- are asked for at the endpoint of the open orders.
  pub signed_reads_received :
      Receives env w get
        (codes "/api/v3/account")
        (timed_parameters (now env w))
        (get_account_info env w)
      × Receives env w get
          (codes "/api/v3/openOrders")
          (timed_parameters (now env w))
          (get_open_orders env w)
      × Receives env w get
          (codes "/api/v3/openOrders")
          (timed_parameters (now env w))
          (get_open_positions env w)
  unfolding get_account_info get_open_orders get_open_positions
  signed_reads_received = (
    signed_get (codes "/api/v3/account") (omega arith),
    signed_get (codes "/api/v3/openOrders") (omega arith),
    signed_get (codes "/api/v3/openOrders") (omega arith),
  )

abbrev pub IsSymbol : Bytes → Type 0
IsSymbol s = Lacks b'&' s × IsLiteral s

-- No symbol in the map holds `&`, or a byte that URL decoding would change.
abbrev pub ArePlainPairs : List (TokenPair × Bytes) → Type 0
ArePlainPairs = All (λ entry. IsSymbol entry.1)

pub initial_pairs-IsPlain : ArePlainPairs Binance.token_pair_to_string
initial_pairs-IsPlain = omega arith

find-IsPlain :
    (p : TokenPair) (m : List (TokenPair × Bytes)) {v : Bytes}
    → ArePlainPairs m
    → find p m ≡ some v
    → IsSymbol v
find-IsPlain p [] h e = cc
find-IsPlain p ((q, u) ∷ m) {v} (h, hs) e =
    elim (Bool-cases (token_pair_code p == token_pair_code q)) [
      | inl same ↦ let u-v : u ≡ v = ground arith in subst IsSymbol u-v h
      | inr other ↦ find-IsPlain p m hs (ground arith)
    ]

index-IsPlain :
    (p : TokenPair) (m : List (TokenPair × Bytes)) → ArePlainPairs m → IsSymbol (index p m).0
index-IsPlain p m h = elim (Option-cases (find p m)) [
  | inl missing ↦ rw missing (tt, tt)
  | inr (v, found) ↦ rw found (find-IsPlain p m h found)
]

pub signed_decimal-Lacks : (x : ℤ) → Lacks b'&' (signed_decimal x)
unfolding signed_decimal
signed_decimal-Lacks (pos n) = decimal-Lacks n
signed_decimal-Lacks (negsuc n) = (omega arith, decimal-Lacks (suc n))

signed_decimal-IsLiteral : (x : ℤ) → IsLiteral (signed_decimal x)
unfolding signed_decimal
signed_decimal-IsLiteral (pos n) = decimal-IsLiteral n
signed_decimal-IsLiteral (negsuc n) = (omega arith, decimal-IsLiteral (suc n))

-- The symbol that the map gives for a pair.
abbrev pub symbol_of : TokenPair → World → Bytes
symbol_of p w = (index p w.binance_pairs).0

abbrev pub cancel_parameters : Bytes → ℕ → ℕ → List Parameter
cancel_parameters symbol time order_id =
    (codes "symbol", symbol)
    ∷ (codes "timestamp", decimal time)
    ∷ (codes "orderId", decimal order_id)
    ∷ []

abbrev pub leverage_parameters : Bytes → ℤ → ℕ → List Parameter
leverage_parameters symbol leverage time =
    (codes "symbol", symbol) ∷ (codes "leverage", signed_decimal leverage) ∷ timed_parameters time

pub parse_cancel :
    (symbol : Bytes) (time order_id : ℕ)
    → IsSymbol symbol
    → order_id < 2 ^ 64
    → read_query (cancel_query symbol time order_id) ≡ cancel_parameters symbol time order_id
parse_cancel symbol time order_id (h, literal) bound =
    ap read_query {x = cancel_query symbol time order_id}
      {y = render (cancel_parameters symbol time order_id)}
      (rw (append_number-eq _ _ bound) (simp (append_assoc, append-nil)))
    ∙ read_query-render (cancel_parameters symbol time order_id) (
      (omega arith, h),
      ((omega arith, decimal-Lacks time), ((omega arith, decimal-Lacks order_id), tt)),
    )
    ∙ decoded_literal (cancel_parameters symbol time order_id) (
      (omega arith, literal),
      ((omega arith, decimal-IsLiteral time), ((omega arith, decimal-IsLiteral order_id), tt)),
    )

parse_leverage :
    (symbol : Bytes) (leverage : ℤ) (time : ℕ)
    → IsSymbol symbol
    → read_query (leverage_query symbol leverage time) ≡ leverage_parameters symbol leverage time
parse_leverage symbol leverage time (h, literal) =
    ap read_query {x = leverage_query symbol leverage time}
      {y = render (leverage_parameters symbol leverage time)} (simp (append_assoc, append-nil))
    ∙ read_query-render (leverage_parameters symbol leverage time) (
      (omega arith, h),
      (
        (omega arith, signed_decimal-Lacks leverage),
        ((omega arith, decimal-Lacks time), ((omega arith, omega arith), tt)),
      ),
    )
    ∙ decoded_literal (leverage_parameters symbol leverage time) (
      (omega arith, literal),
      (
        (omega arith, signed_decimal-IsLiteral leverage),
        ((omega arith, decimal-IsLiteral time), ((omega arith, omega arith), tt)),
      ),
    )

module _ (env : Env) (w : World) (p : TokenPair) where
  -- A cancellation hands over one DELETE request, which the exchange accepts as one for the pair's
  -- symbol, the time of the call and the order id; a change of leverage likewise hands over one POST
  -- request. The order id has 64 bits, and the symbols in the map hold no `&` and nothing that URL
  -- decoding changes.
  pub cancel_and_leverage_received :
      (order_id : ℕ) (leverage : ℤ) (error : ErrorRef)
      → order_id < 2 ^ 64
      → ArePlainPairs w.binance_pairs
      → Receives env w delete
          (codes "/api/v3/order")
          (cancel_parameters (symbol_of p w) (now env w) order_id)
          (cancel_order env p order_id error w)
        × Receives env w post
            (codes "/fapi/v1/leverage")
            (leverage_parameters (symbol_of p w) leverage (now env w))
            (set_leverage env p leverage w)
  unfolding cancel_order set_leverage binance_symbol http_delete http_post
  cancel_and_leverage_received order_id leverage error bound plain = (
    (
      request_empty delete _ (api_key_header w) w,
      exchange_requests env _ error _,
      refl,
      receive_parameters env w (codes "/api/v3/order")
          (cancel_query (symbol_of p w) (now env w) order_id) (omega arith)
          (parse_cancel (symbol_of p w) (now env w) order_id (index-IsPlain p _ plain) bound),
      refl,
    ),
    (
      request_string post _ (api_key_header w) [] w,
      exchange_requests env _ dummy _,
      refl,
      receive_parameters env w (codes "/fapi/v1/leverage")
          (leverage_query (symbol_of p w) leverage (now env w)) (omega arith)
          (parse_leverage (symbol_of p w) leverage (now env w) (index-IsPlain p _ plain)),
      refl,
    ),
  )
