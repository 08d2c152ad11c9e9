-- ===== src/System/Calls.antt =====
-- The requests of a client are authentic: one lemma for each kind of request.
use crypto_con.Base.{
  ℕ, ◌+◌, ◌%◌, ◌^◌, ap, append_assoc, ◌∙◌, Bytes, codes, true, false, Bool-cases, [], ◌∷◌, ◌++◌,
  inl, inr, ◌≡◌, refl, arith, Lacks, ◌==◌,
}
use crypto_con.Base.Int.{ℤ}
use crypto_con.Types.{TokenPair, OrderType, order_type_code}
use crypto_con.Types.StdMap.{index, text_key, token_pair_key}
use crypto_con.Types.TableLaws.{index_stable}
use crypto_con.Utils.Number.{signed_decimal}
use crypto_con.World.{World, Env, Verb, get, post, put, delete}
use crypto_con.Exec.{ErrorRef, dummy}
use crypto_con.Rest.{
  exchange, request_empty, request_string, http_get, http_post, http_put, http_delete,
}
use crypto_con.Binance.Query.Decode.{read_query}
use crypto_con.Binance.Endpoints.{
  api_key_header, binance_symbol, listen_key_target, signed_target, order_endpoint, get_signed,
  get_market, keep_alive_listen_key, close_listen_key, send_target, sign_and_send, cancel_order,
  set_leverage, leverage_query,
}
use crypto_con.Binance.Endpoints.Server.{receive-signed_target, split_path, split_path-append}
use crypto_con.System.Authentic.{
  wants_signature, wants_key, wants_nothing, path_of, path_of-signed_target, signed-IsAuthentic,
  unsigned-IsAuthentic,
}
use crypto_con.System.Grows.{SameSystem, Grows, exchange-Grows, Extends}

module _ (env : Env) where
  module _ (w v : World) (same : SameSystem w v) (verb : Verb) (endpoint query : Bytes)
      (bare : Lacks b'?' endpoint) (wanted : wants_signature endpoint ≡ true) where
    abbrev target : Bytes
    target = signed_target env.digest w.secret_key endpoint query

    empty-Grows :
        (ref : ErrorRef)
        → Grows env w (exchange env (request_empty verb target (api_key_header w) v) ref v).1
    empty-Grows ref =
        exchange-Grows env (request_empty verb target (api_key_header w) v) ref w v same (
          signed-IsAuthentic env.digest w.api_key w.secret_key _ endpoint (read_query query)
            (path_of-signed_target env.digest w.secret_key endpoint query bare) wanted refl
            (receive-signed_target env.digest w.secret_key endpoint query bare))

    string-Grows :
        (ref : ErrorRef)
        → Grows env w (exchange env (request_string verb target (api_key_header w) [] v) ref v).1
    string-Grows ref =
        exchange-Grows env (request_string verb target (api_key_header w) [] v) ref w v same (
          signed-IsAuthentic env.digest w.api_key w.secret_key _ endpoint (read_query query)
            (path_of-signed_target env.digest w.secret_key endpoint query bare) wanted refl
            (receive-signed_target env.digest w.secret_key endpoint query bare))

  pub get_signed-Extends :
      (endpoint : Bytes)
      → Lacks b'?' endpoint
      → wants_signature endpoint ≡ true
      → Extends env (get_signed env endpoint)
  unfolding http_get
  get_signed-Extends endpoint bare wanted = record {
    at = λ w.
        empty-Grows w (record w { clock_reads = w.clock_reads + 1 })
          (refl, refl, refl, refl, refl, λ t. refl) get endpoint _ bare wanted dummy;
  }

  -- A target without a signature.
  pub plain_get-Extends :
      (target path : Bytes)
      → path_of target ≡ path
      → wants_key path ≡ false
      → Extends env (http_get env target [] dummy)
  unfolding http_get
  plain_get-Extends target path e unwanted = record {
    at = λ w.
        exchange-Grows env (request_empty get target [] w) dummy w w
          (refl, refl, refl, refl, refl, λ t. refl)
          (unsigned-IsAuthentic env.digest w.api_key w.secret_key _ path e
            (wants_nothing path unwanted) (rw unwanted refl));
  }

  abbrev market_target : Bytes → Bytes → Bytes → Bytes
  market_target endpoint name limit =
      endpoint ++ codes "?symbol=" ++ name ++ codes "&limit=" ++ limit

  market_path :
      (endpoint name limit : Bytes)
      → Lacks b'?' endpoint
      → path_of (market_target endpoint name limit) ≡ endpoint
  unfolding path_of
  market_path endpoint name limit bare =
      let rest = codes "symbol=" ++ (name ++ (codes "&limit=" ++ limit)) in
      let e : market_target endpoint name limit ≡ endpoint ++ b'?' ∷ rest = simp (append_assoc) in
      ap path_of e ∙ ap (λ (x : Bytes × Bytes). x.0) (split_path-append endpoint [] rest bare)

  -- A public GET for a symbol.
  pub market-Extends :
      (endpoint : Bytes) (p : TokenPair) (limit : ℤ)
      → Lacks b'?' endpoint
      → wants_key endpoint ≡ false
      → Extends env (get_market env endpoint p limit)
  unfolding binance_symbol http_get
  market-Extends endpoint p limit bare unwanted = record {
    at = λ w.
        let name = (index p w.binance_pairs).0 in
        let v = record w { binance_pairs = (index p w.binance_pairs).1 } in
        exchange-Grows env
          (request_empty get (market_target endpoint name (signed_decimal limit)) [] v) dummy w v
          (refl, refl, refl, refl, refl, λ t. index_stable p t w.binance_pairs)
          (unsigned-IsAuthentic env.digest w.api_key w.secret_key _ endpoint
            (market_path endpoint name (signed_decimal limit) bare)
            (wants_nothing endpoint unwanted) (rw unwanted refl));
  }

  -- The requests for a listen key carry the API key.
  listen_target :
      (listen_key : Bytes) → path_of (listen_key_target listen_key) ≡ codes "/api/v3/userDataStream"
  unfolding path_of split_path
  listen_target listen_key = refl

  pub keep_alive-Extends : (listen_key : Bytes) → Extends env (keep_alive_listen_key env listen_key)
  unfolding keep_alive_listen_key http_put
  keep_alive-Extends listen_key = record {
    at = λ w.
        exchange-Grows env
          (request_string put (listen_key_target listen_key) (api_key_header w) [] w) dummy w w
          (refl, refl, refl, refl, refl, λ t. refl)
          (unsigned-IsAuthentic env.digest w.api_key w.secret_key _ _ (listen_target listen_key)
            refl refl);
  }

  pub close_listen-Extends : (listen_key : Bytes) → Extends env (close_listen_key env listen_key)
  unfolding close_listen_key http_delete
  close_listen-Extends listen_key = record {
    at = λ w.
        exchange-Grows env
          (request_empty delete (listen_key_target listen_key) (api_key_header w) w) dummy w w
          (refl, refl, refl, refl, refl, λ t. refl)
          (unsigned-IsAuthentic env.digest w.api_key w.secret_key _ _ (listen_target listen_key)
            refl refl);
  }

  order_endpoint-wanted :
      (t : OrderType) → Lacks b'?' (order_endpoint t) × (wants_signature (order_endpoint t) ≡ true)
  order_endpoint-wanted t = elim (Bool-cases (order_type_code t == order_type_code OrderType.oco)) [
    | inl oco ↦ rw oco (omega arith, refl)
    | inr other ↦ rw other (omega arith, refl)
  ]

  pub sign_and_send-Extends :
      (t : OrderType) (query : Bytes) (error : ErrorRef)
      → Extends env (sign_and_send env t query error)
  unfolding send_target http_post
  sign_and_send-Extends t query error = record {
    at = λ w.
        let (bare, wanted) = order_endpoint-wanted t in
        string-Grows w (record w { log = _ }) (refl, refl, refl, refl, refl, λ t. refl) post
          (order_endpoint t) query bare wanted error;
  }

  pub cancel-Extends :
      (p : TokenPair) (order_id : ℕ) (error : ErrorRef)
      → Extends env (cancel_order env p order_id error)
  unfolding cancel_order binance_symbol http_delete
  cancel-Extends p order_id error = record {
    at = λ w.
        empty-Grows w
          (record w {
            clock_reads = w.clock_reads + 1;
            binance_pairs = (index p w.binance_pairs).1;
          })
          (refl, refl, refl, refl, refl, λ t. index_stable p t w.binance_pairs) delete
          (codes "/api/v3/order") _ (omega arith) refl error;
  }

  pub leverage-Extends : (p : TokenPair) (x : ℤ) → Extends env (set_leverage env p x)
  unfolding set_leverage binance_symbol http_post
  leverage-Extends p x = record {
    at = λ w.
        string-Grows w
          (record w {
            log = _;
            clock_reads = w.clock_reads + 1;
            binance_pairs = (index p w.binance_pairs).1;
          })
          (refl, refl, refl, refl, refl, λ t. index_stable p t w.binance_pairs) post
          (codes "/fapi/v1/leverage")
          (leverage_query (index p w.binance_pairs).0 x (env.clock w.clock_reads % 2 ^ 64))
          (omega arith) refl dummy;
  }
