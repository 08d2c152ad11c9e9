-- ===== src/Binance/Templates/ListenKey.antt =====
-- What `createListenKey` fetches, if the host's `post` is that of the REST client.
use crypto_con.Base.{ℕ, ◌+◌, Bytes, codes, [], ◌∷◌, ◌++◌, ◌⊎◌, inl, inr, none, some, ◌≡◌, refl}
use crypto_con.World.{World, Env, Request, post}
use crypto_con.Exec.{Outcome, ok, throw, simdjson_error, dummy}
use crypto_con.Rest.{http_post, request_string}
use crypto_con.Rest.Exchange.{Connects, exchange-Exchanged, exchange_requests, response}
use crypto_con.Rest.Requests.{header}
use crypto_con.Binance.Endpoints.{api_key_header}
use crypto_con.Binance.Templates.{create_listen_key, listen_key_of}

-- The listen key of the answer; or its exception, with two lines in the log.
abbrev pub Fetched : Bytes → ℕ ⊎ Bytes → World → Outcome Bytes × World → Type 0
Fetched answer (inr listen_key) v r = r ≡ (ok listen_key, v)
Fetched answer (inl code) v r = r ≡ (
  throw (simdjson_error code),
  record v {
    log =
        v.log
        ++ codes "Failed to fetch listen key" ∷ []
        ++ (codes "Full response: " ++ answer) ∷ [];
  },
)

listen_key_of-Fetched :
    (answer : Bytes) (field : ℕ ⊎ Bytes) (v : World)
    → Fetched answer field v (listen_key_of answer field v)
listen_key_of-Fetched answer (inl code) v = refl
listen_key_of-Fetched answer (inr listen_key) v = refl

abbrev pub listen_key_request : World → Request
listen_key_request w = request_string post (codes "/api/v3/userDataStream") (api_key_header w) [] w

module _ (env : Env) (w : World) where
  -- The state when the answer has been read.
  abbrev pub answered : World
  answered = (http_post env (codes "/api/v3/userDataStream") (api_key_header w) [] dummy w).1

  -- `createListenKey` hands over one POST request without a body, with the API key and no signature.
  -- It returns the key that the answer holds, whatever has failed before; an answer without one,
  -- such as the empty answer of a failed read, is logged, and the JSON exception thrown again. The
  -- host's `post` is that of the REST client, and its connections succeed.
  pub create_listen_key-Fetched :
      Connects env.network w.rest.connects
      → Connects env.network (w.rest.connects + 1)
      → let answer = response (env.network.read w.rest.reads) in
        (answered.rest.requests ≡ w.rest.requests ++ listen_key_request w ∷ [])
        × (header (codes "X-MBX-APIKEY") none (listen_key_request w).calls ≡ some w.api_key)
        × Fetched answer
            (env.json.string_field answer (codes "listenKey"))
            answered
            (create_listen_key env (λ target headers. http_post env target headers [] dummy) w)
  unfolding http_post create_listen_key
  create_listen_key-Fetched c d =
      let posted = record w { log = w.log ++ codes "POST /api/v3/userDataStream Body: " ∷ [] } in
      let good = (exchange-Exchanged env (listen_key_request w) dummy posted c d).0 in
      let answer = response (env.network.read w.rest.reads) in
      (
        exchange_requests env (listen_key_request w) dummy posted,
        refl,
        rw good (listen_key_of-Fetched answer (env.json.string_field answer (codes "listenKey")) _),
      )
