-- ===== src/Binance/Endpoints/CancelOne.antt =====
-- One cancellation of `cancelAllOpenOrders`.
use crypto_con.Base.{
  ℕ, ◌+◌, ◌<◌, ◌^◌, Bytes, codes, List, [], ◌∷◌, ◌++◌, ◌≡◌, refl, ap, none, some, arith, text_eq,
  text_eq_iff, true, ◌↔◌,
}
use crypto_con.Types.{TokenPair}
use crypto_con.Types.StdMap.{find, index, text_key, token_pair_key}
use crypto_con.Types.Tables.Binance
use crypto_con.World.{World, Env, Request, delete}
use crypto_con.Exec.{ok, dummy}
use crypto_con.Rest.{http_delete, request_empty}
use crypto_con.Rest.Exchange.{Connects, exchange-Exchanged, exchange-SameOutside, exchange_requests}
use crypto_con.Binance.Endpoints.{
  binance_symbol, signed_target, cancel_query, api_key_header, cancel_order,
}
use crypto_con.Rest.Requests.{header}
use crypto_con.Binance.Endpoints.Server.{receive}
use crypto_con.Binance.Endpoints.Signed.{
  IsSymbol, cancel_parameters, now, parse_cancel, receive_parameters,
}

-- The symbol map knows the two symbols of the exchange.
pub record KnowsSymbols (m : List (TokenPair × Bytes)) : Type 0 where
  pub btc : find TokenPair.btcusd m ≡ some (codes "BTCUSDT")
  pub eth : find TokenPair.ethusd m ≡ some (codes "ETHUSDT")

-- What has become of the client when one order has been cancelled.
pub record Cancelled (env : Env) (name : Bytes) (order_id : ℕ) (w w' : World) : Type 0 where
  pub request : Request
  pub handed_over : w'.rest.requests ≡ w.rest.requests ++ request ∷ []
  pub verb : request.verb ≡ delete
  pub key : header (codes "X-MBX-APIKEY") none request.calls ≡ some w.api_key
  pub accepted :
      receive env.digest w.secret_key request.target
      ≡ some (codes "/api/v3/order", cancel_parameters name (now env w) order_id)
  pub time : w'.clock_reads ≡ w.clock_reads + 1
  pub secret : w'.secret_key ≡ w.secret_key
  pub symbols : KnowsSymbols w'.binance_pairs

btc_text : (name : Bytes) → (text_eq name (codes "BTCUSDT") ≡ true) ↔ (name ≡ codes "BTCUSDT")
btc_text name = text_eq_iff name (codes "BTCUSDT")

eth_text : (name : Bytes) → (text_eq name (codes "ETHUSDT") ≡ true) ↔ (name ≡ codes "ETHUSDT")
eth_text name = text_eq_iff name (codes "ETHUSDT")

-- A symbol that the exchange lists is the one that the map gives for its pair.
listed :
    (name : Bytes) (p : TokenPair) (m : List (TokenPair × Bytes))
    → find name Binance.string_to_token_pair ≡ some p
    → KnowsSymbols m
    → (index p m ≡ (name, m)) × IsSymbol name
listed name TokenPair.btcusd m h k =
    let e : name ≡ codes "BTCUSDT" = ground (arith, btc_text name, eth_text name) in
    rw (e, k.btc) (refl, (omega arith, omega arith))
listed name TokenPair.ethusd m h k =
    let e : name ≡ codes "ETHUSDT" = ground (arith, btc_text name, eth_text name) in
    rw (e, k.eth) (refl, (omega arith, omega arith))
listed name TokenPair.none m h k = absurd (ground arith)

module _ (name : Bytes) (p : TokenPair) (w : World) where
  known_symbol :
      find name Binance.string_to_token_pair ≡ some p
      → KnowsSymbols w.binance_pairs
      → binance_symbol p w ≡ (ok name, w)
  unfolding binance_symbol
  known_symbol h k =
      ap (λ (r : Bytes × List (TokenPair × Bytes)). (ok r.0, record w { binance_pairs = r.1 }))
        (listed name p w.binance_pairs h k).0

module _ (env : Env) where
  abbrev pub ticked : World → World
  ticked w = record w { clock_reads = w.clock_reads + 1 }

  abbrev cancel_target : Bytes → ℕ → World → Bytes
  cancel_target name order_id w =
      signed_target env.digest w.secret_key (codes "/api/v3/order")
        (cancel_query name (now env w) order_id)

  module _ (name : Bytes) (p : TokenPair) (order_id : ℕ) (w : World)
      (h : find name Binance.string_to_token_pair ≡ some p) (k : KnowsSymbols w.binance_pairs) where
    cancel_known :
        cancel_order env p order_id dummy w
        ≡ http_delete env (cancel_target name order_id w) (api_key_header w) dummy (ticked w)
    unfolding cancel_order
    cancel_known = rw (known_symbol name p w h k)

    abbrev cancel_request : Request
    cancel_request = request_empty delete (cancel_target name order_id w) (api_key_header w) w

    pub cancel_state :
        order_id < 2 ^ 64 → Cancelled env name order_id w (cancel_order env p order_id dummy w).1
    cancel_state bound = rw cancel_known (
        unfold http_delete in
        (let same = exchange-SameOutside env cancel_request dummy (ticked w) in
          record {
            request = cancel_request;
            handed_over = exchange_requests env cancel_request dummy (ticked w);
            verb = refl;
            key = refl;
            accepted =
                receive_parameters env w (codes "/api/v3/order")
                  (cancel_query name (now env w) order_id) (omega arith)
                  (parse_cancel name (now env w) order_id (listed name p w.binance_pairs h k).1
                    bound);
            time = same.clock_reads;
            secret = same.secret_key;
            symbols = rw same.binance_pairs k;
          }))

    pub cancel_ok :
        ((n : ℕ) → Connects env.network n)
        → (body : Bytes) × ((cancel_order env p order_id dummy w).0 ≡ ok body)
    cancel_ok connects = rw cancel_known (
        unfold http_delete in
        (_, (exchange-Exchanged env cancel_request dummy (ticked w) (connects _) (connects _)).0))
