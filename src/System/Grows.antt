-- ===== src/System/Grows.antt =====
-- Actions that only add authentic requests, and leave the keys and the WebSocket client alone: one
-- rule for each way to build an action.
use crypto_con.Base.{
  Bytes, List, [], ◌∷◌, ◌++◌, append-nil, append_assoc, ◌≡◌, refl, sym, ap, ◌∙◌, subst, All,
  All-append,
}
use crypto_con.Types.{TokenPair}
use crypto_con.Types.StdMap.{index, token_pair_key}
use crypto_con.World.{World, Env, Request}
use crypto_con.Exec.{Exec, Exn, Outcome, ok, throw, pure, raise, continue, ErrorRef, ◌>>=◌}
use crypto_con.Rest.{exchange}
use crypto_con.Rest.Exchange.{exchange_requests, exchange-SameOutside}
use crypto_con.System.Authentic.{IsAuthentic}

-- Each pair has the symbol that it had.
abbrev pub SameSymbols : World → World → Type 0
SameSymbols w w' = (t : TokenPair) → (index t w'.binance_pairs).0 ≡ (index t w.binance_pairs).0

-- What the rules are about: the keys, the requests, the symbols and the WebSocket client are as
-- before.
abbrev pub SameSystem : World → World → Type 0
SameSystem w w' =
    (w'.rest.requests ≡ w.rest.requests)
    × (w'.api_key ≡ w.api_key)
    × (w'.secret_key ≡ w.secret_key)
    × (w'.ws ≡ w.ws)
    × (w'.kraken_pairs ≡ w.kraken_pairs)
    × SameSymbols w w'

module _ (env : Env) where
  abbrev pub AreAuthentic : World → List Request → Type 0
  AreAuthentic w = All (IsAuthentic env.digest w.api_key w.secret_key)

  pub record Grows (w w' : World) : Type 0 where
    pub added : List Request
    pub requests : w'.rest.requests ≡ w.rest.requests ++ added
    pub authentic : AreAuthentic w added
    pub api_key : w'.api_key ≡ w.api_key
    pub secret_key : w'.secret_key ≡ w.secret_key
    pub ws : w'.ws ≡ w.ws
    pub kraken_pairs : w'.kraken_pairs ≡ w.kraken_pairs
    pub symbols : SameSymbols w w'

  pub same-Grows : (w w' : World) → SameSystem w w' → Grows w w'
  same-Grows w w' (requests, api_key, secret_key, ws, kraken_pairs, symbols) = record {
    added = [];
    requests = requests ∙ sym (append-nil w.rest.requests);
    authentic = tt;
    api_key = api_key;
    secret_key = secret_key;
    ws = ws;
    kraken_pairs = kraken_pairs;
    symbols = symbols;
  }

  pub Grows-trans : (u v w : World) → Grows u v → Grows v w → Grows u w
  Grows-trans u v w g h = record {
    added = g.added ++ h.added;
    requests =
        h.requests
        ∙ ap (λ l. l ++ h.added) g.requests
        ∙ append_assoc u.rest.requests g.added h.added;
    authentic =
        All-append (IsAuthentic env.digest u.api_key u.secret_key) g.added h.added g.authentic (
          subst (λ k. All (IsAuthentic env.digest k u.secret_key) h.added) g.api_key
            (subst (λ k. All (IsAuthentic env.digest v.api_key k) h.added) g.secret_key
              h.authentic));
    api_key = h.api_key ∙ g.api_key;
    secret_key = h.secret_key ∙ g.secret_key;
    ws = h.ws ∙ g.ws;
    kraken_pairs = h.kraken_pairs ∙ g.kraken_pairs;
    symbols = λ t. h.symbols t ∙ g.symbols t;
  }

  -- An exchange adds its request, from a state that differs in what does not matter.
  pub exchange-Grows :
      (req : Request) (ref : ErrorRef) (w v : World)
      → SameSystem w v
      → IsAuthentic env.digest w.api_key w.secret_key req
      → Grows w (exchange env req ref v).1
  exchange-Grows req ref w v (requests, api_key, secret_key, ws, kraken_pairs, symbols) authentic =
      let same = exchange-SameOutside env req ref v in
      record {
        added = req ∷ [];
        requests = exchange_requests env req ref v ∙ ap (λ l. l ++ req ∷ []) requests;
        authentic = (authentic, tt);
        api_key = same.api_key ∙ api_key;
        secret_key = same.secret_key ∙ secret_key;
        ws = same.ws ∙ ws;
        kraken_pairs = same.kraken_pairs ∙ kraken_pairs;
        symbols = λ t.
            ap (λ (m : List (TokenPair × Bytes)). (index t m).0) same.binance_pairs ∙ symbols t;
      }

  -- An action that grows from every state, whether it returns or throws.
  pub record Extends {A : Type 0} (m : Exec A) : Type 0 where
    pub at : (w : World) → Grows w (m w).1

  pub Extends-pure : {A : Type 0} (a : A) → Extends (pure a)
  Extends-pure a = record { at = λ w. same-Grows w w (refl, refl, refl, refl, refl, λ t. refl) }

  pub Extends-raise : {A : Type 0} (e : Exn) → Extends (raise {A = A} e)
  Extends-raise e = record { at = λ w. same-Grows w w (refl, refl, refl, refl, refl, λ t. refl) }

  continue-Grows :
      {A B : Type 0} (u v : World) (r : Outcome A) (f : A → Exec B)
      → Grows u v
      → ((a : A) → Extends (f a))
      → Grows u (continue r f v).1
  continue-Grows u v (ok a) f g k = Grows-trans u v (f a v).1 g ((k a).at v)
  continue-Grows u v (throw e) f g k = g

  pub Extends-bind :
      {A B : Type 0} (m : Exec A) (f : A → Exec B)
      → Extends m
      → ((a : A) → Extends (f a))
      → Extends (m >>= f)
  Extends-bind m f km kf = record { at = λ w. continue-Grows w (m w).1 (m w).0 f (km.at w) kf }
